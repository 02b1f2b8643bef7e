-- ===== src/License/Term.antt =====
-- internal/pkg/license/license.go: the pure rules of a grant. A day is 24 hours: AddDate counts
-- calendar days, and the servers' zones (UTC, Asia/Ho_Chi_Minh) have no daylight saving time.
pub mod Renewal
use koviobe.Base.{
  ℕ, ◌+◌, ◌*◌, ◌^◌, Text, Bool, true, false, ◌&&◌, ◌||◌, not, Option, none, some, ltb, leb, ◌==◌,
  if◌then◌else◌, is_empty, text_eq, is_negative,
}
use koviobe.Model.License.{
  Subscription, SubStatus, active, Source, expiry_auto, Action, grant, renew, downgrade, expire,
  plan_free, plan_edu, plan_pro, plan_business, PricingPlan,
}

abbrev pub day : ℕ
day = 24 * 3600 * 10 ^ 9

unfoldable pub plan_rank : Text → Option ℕ
plan_rank id =
    if text_eq id plan_free
    then some 0
    else if text_eq id plan_edu
    then some 1
    else if text_eq id plan_pro
    then some 2
    else if text_eq id plan_business
    then some 3
    else none

abbrev pub is_active_status : SubStatus → Bool
is_active_status active = true
is_active_status _ = false

-- The term is over at `now`: EndsAt is set and not after it.
abbrev pub is_over : ℕ → Option ℕ → Bool
is_over now none = false
is_over now (some e) = leb e now

abbrev pub ranks_above : Option ℕ → Option ℕ → Bool
ranks_above (some cur) (some next) = ltb next cur
ranks_above _ _ = false

unfoldable pub replaces_higher_live_term : ℕ → Option Subscription → Text → Bool
unfolding plan_rank
replaces_higher_live_term now none plan = false
replaces_higher_live_term now (some c) plan =
    is_active_status c.status
    && not (is_over now c.ends_at)
    && ranks_above (plan_rank c.plan_id) (plan_rank plan)

pub record AssignOptions : Type 0 where
  pub ends_at_days : Option ℕ
  pub extend : Bool

abbrev same_live : ℕ → Option Subscription → Text → Bool → Option Subscription
same_live now none plan extend = none
same_live now (some c) plan extend =
    if extend && text_eq c.plan_id plan && not (is_over now c.ends_at) then some c else none

abbrev pub add_days : ℕ → Option ℕ → Option ℕ
add_days days none = none
add_days days (some e) = some (e + days * day)

-- A term that is added to the end of the live one, or starts now.
abbrev term_from : ℕ → ℕ → Option Subscription → ℕ × Option ℕ
term_from now days none = (now, some (now + days * day))
term_from now days (some c) = (c.starts_at, add_days days c.ends_at)

abbrev term_by : ℕ → Option Subscription → Text → Bool → Option ℕ → ℕ × Option ℕ
term_by now current plan extend none = (now, none)
term_by now current plan extend (some days) = term_from now days (same_live now current plan extend)

unfoldable pub compute_term : ℕ → Option Subscription → Text → AssignOptions → ℕ × Option ℕ
compute_term now current plan opts =
    if text_eq plan plan_free
    then (now, none)
    else term_by now current plan opts.extend opts.ends_at_days

abbrev pub is_expiry : Source → Bool
is_expiry expiry_auto = true
is_expiry _ = false

unfoldable pub classify_action : Text → Text → Source → Action
classify_action previous plan source =
    if is_expiry source
    then expire
    else if text_eq plan plan_free && not (is_empty previous) && not (text_eq previous plan_free)
    then downgrade
    else if text_eq previous plan && not (is_empty previous)
    then renew
    else grant

abbrev pub is_revenue_action : Action → Bool
is_revenue_action grant = true
is_revenue_action renew = true
is_revenue_action _ = false

unfoldable pub is_unlimited : ℕ → Bool
is_unlimited n = is_negative n

abbrev is_past : ℕ → Option ℕ → Bool
is_past now none = false
is_past now (some e) = ltb e now

unfoldable pub is_expired : ℕ → Subscription → Bool
is_expired now sub = is_past now sub.ends_at
