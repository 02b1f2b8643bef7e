-- ===== src/License/Plans.antt =====
-- internal/pkg/license/license.go: the subscription row of a user, its history, and the limits that
-- it gives. `enforcing` is Enforcing(), `now` the clock.
pub mod Granted
use koviobe.Base.{
  ℕ, Text, Bool, true, false, ◌&&◌, ◌||◌, not, Option, none, some, List, [], ◌∷◌, codes, ◌==◌, ltb,
  leb, word, ◌-◌, if◌then◌else◌, text_eq, find, update_where, is_positive, Result, ok, err, ◌>>=◌,
  ◌>>◌, return, guard, gets, modify, or_fail,
}
use koviobe.Model.Errors.{
  Error, Faults, find_plan, find_user, find_subscription, save_subscription, insert_event,
  plan_unavailable, user_not_found, bad_days, db_error, free_plan_missing,
}
use koviobe.Model.License.{
  PricingPlan, Subscription, SubStatus, active, expired, canceled, SubscriptionEvent, GrantContext,
  Source, unset, admin_assign, expiry_auto, User, plan_free,
}
use koviobe.Model.Config.{Config}
use koviobe.Model.Store.{Store, Db, stmt}
use koviobe.License.Code.{plan_active}
use koviobe.License.Term.{
  AssignOptions, compute_term, classify_action, is_expired, is_active_status,
}

pub record Entitlements : Type 0 where
  pub plan_id : Text
  pub plan_name : Text
  pub max_players_per_room : ℕ
  pub max_quizzes : ℕ
  pub max_templates : ℕ
  pub max_concurrent_rooms : ℕ
  pub max_questions_per_quiz : ℕ
  pub allow_player_paced : Bool
  pub allow_custom_branding : Bool
  pub allow_export_logs : Bool
  pub allow_priority_support : Bool
  pub allow_remove_watermark : Bool
  pub allow_quiz_sharing : Bool
  pub max_collaborators_per_quiz : ℕ

-- -1, which means no limit.
abbrev pub unlimited : ℕ
unlimited = word - 1

unfoldable pub open_max_players : Option Config → ℕ
open_max_players none = 2000
open_max_players (some c) =
    if is_positive c.max_players_per_room_open then c.max_players_per_room_open else 2000

-- `seats` is model.DefaultProCollaboratorsPerQuiz.
unfoldable pub open_entitlements : Option Config → ℕ → Entitlements
unfolding open_max_players
open_entitlements cfg seats = record {
  plan_id = codes "open";
  plan_name = codes "Open (license deferred)";
  max_players_per_room = open_max_players cfg;
  max_quizzes = unlimited;
  max_templates = unlimited;
  max_concurrent_rooms = unlimited;
  max_questions_per_quiz = unlimited;
  allow_player_paced = true;
  allow_custom_branding = true;
  allow_export_logs = true;
  allow_priority_support = true;
  allow_remove_watermark = true;
  allow_quiz_sharing = true;
  max_collaborators_per_quiz = seats;
}

unfoldable pub default_free_entitlements : Entitlements
default_free_entitlements = record {
  plan_id = plan_free;
  plan_name = codes "Free (chưa kích hoạt)";
  max_players_per_room = 0;
  max_quizzes = 0;
  max_templates = 0;
  max_concurrent_rooms = 0;
  max_questions_per_quiz = 0;
  allow_player_paced = false;
  allow_custom_branding = false;
  allow_export_logs = false;
  allow_priority_support = false;
  allow_remove_watermark = false;
  allow_quiz_sharing = false;
  max_collaborators_per_quiz = 0;
}

unfoldable pub entitlements_from_plan : Option PricingPlan → Entitlements
unfolding default_free_entitlements
entitlements_from_plan none = default_free_entitlements
entitlements_from_plan (some p) = record {
  plan_id = p.id;
  plan_name = p.name;
  max_players_per_room = p.max_players_per_room;
  max_quizzes = p.max_quizzes;
  max_templates = p.max_templates;
  max_concurrent_rooms = p.max_concurrent_rooms;
  max_questions_per_quiz = p.max_questions_per_quiz;
  allow_player_paced = p.allow_player_paced;
  allow_custom_branding = p.allow_custom_branding;
  allow_export_logs = p.allow_export_logs;
  allow_priority_support = p.allow_priority_support;
  allow_remove_watermark = p.allow_remove_watermark;
  allow_quiz_sharing = p.allow_quiz_sharing;
  max_collaborators_per_quiz = p.max_collaborators_per_quiz;
}

abbrev pub is_of : ℕ → Subscription → Bool
is_of user sub = sub.user_id == user

abbrev pub sub_of : ℕ → Store → Option Subscription
sub_of user s = find (is_of user) s.subscriptions

abbrev pub user_is : ℕ → User → Bool
user_is id u = u.id == id

abbrev pub plan_is : Text → PricingPlan → Bool
plan_is id p = text_eq p.id id

abbrev pub put_sub : Subscription → Store → Store
put_sub sub s = record s {
  subscriptions = update_where (is_of sub.user_id) (λ _. sub) s.subscriptions;
}

-- A gc.Source that is empty is filed as an admin's.
abbrev pub source_of : GrantContext → Source
source_of gc = elim gc.source [ unset ↦ admin_assign | other ↦ other ]

abbrev pub event_of : Subscription → Text → Text → GrantContext → SubscriptionEvent
event_of sub email previous gc = record {
  user_id = sub.user_id;
  email = email;
  action = classify_action previous sub.plan_id (source_of gc);
  source = source_of gc;
  source_ref = gc.source_ref;
  previous_plan_id = previous;
  plan_id = sub.plan_id;
  starts_at = sub.starts_at;
  ends_at = sub.ends_at;
  amount_vnd = gc.amount_vnd;
  external_ref = gc.external_ref;
  actor_user_id = gc.actor_user_id;
  note = gc.note;
  ip_address = gc.ip_address;
}

unfoldable pub record_event : Faults → Subscription → Text → Text → GrantContext → Db (Unit {0})
record_event down sub email previous gc = do
  stmt down (insert_event sub.user_id)
  modify (λ s. record s { events = event_of sub email previous gc ∷ s.events })

abbrev pub days_ok : Text → Option ℕ → Bool
days_ok plan none = true
days_ok plan (some d) = text_eq plan plan_free || is_positive d

abbrev pub previous_plan : Option Subscription → Text
previous_plan none = []
previous_plan (some c) = c.plan_id

-- The row that a grant writes.
abbrev pub granted : ℕ → ℕ → Option Subscription → Text → AssignOptions → Subscription
granted now user current plan opts = record {
  user_id = user;
  plan_id = plan;
  status = active;
  starts_at = (compute_term now current plan opts).0;
  ends_at = (compute_term now current plan opts).1;
}

abbrev pub write_sub : Option Subscription → Subscription → Store → Store
write_sub none sub s = record s { subscriptions = sub ∷ s.subscriptions }
write_sub (some _) sub s = put_sub sub s

-- A read that fails counts as no row, and the insert then meets the unique index.
abbrev pub read_sub : Faults → ℕ → Store → Option Subscription
read_sub down user s = if down (find_subscription user) then none else sub_of user s

abbrev pub index_ok : Option Subscription → Option Subscription → Bool
index_ok none (some _) = false
index_ok _ _ = true

-- setPlanTx: the single writer of a user's subscription row.
unfoldable pub set_plan : Faults → ℕ → ℕ → Text → AssignOptions → GrantContext → Db Subscription
set_plan down now user plan opts gc = do
  offered ← gets (λ s. find (plan_active plan) s.plans)
  guard (not (down (find_plan plan))) plan_unavailable
  p ← or_fail offered plan_unavailable
  row ← gets (λ s. find (user_is user) s.users)
  guard (not (down (find_user user))) user_not_found
  u ← or_fail row user_not_found
  guard (days_ok plan opts.ends_at_days) bad_days
  current ← gets (read_sub down user)
  there ← gets (sub_of user)
  let sub = granted now user current plan opts
  stmt down (save_subscription user)
  guard (index_ok current there) db_error
  modify (write_sub current sub)
  record_event down sub u.email (previous_plan current) gc
  return sub

abbrev pub free_sub : ℕ → ℕ → Subscription
free_sub user now = record {
  user_id = user;
  plan_id = plan_free;
  status = active;
  starts_at = now;
  ends_at = none;
}

-- EnsureFreeSubscription: whether it failed, and the store.
unfoldable pub ensure_free : Faults → ℕ → ℕ → Store → Bool × Store
ensure_free down now user s = elim (sub_of user s) [
  | some _ ↦ (not (down (find_subscription user)), s)
  | none ↦
      if down (find_subscription user) || down (save_subscription user)
      then (false, s)
      else (true, record s { subscriptions = free_sub user now ∷ s.subscriptions })
]

abbrev pub email_of : Faults → ℕ → Store → Text
email_of down user s = elim (find (user_is user) s.users) [
  | none ↦ []
  | some u ↦ if down (find_user user) then [] else u.email
]

abbrev pub expiry_context : GrantContext
expiry_context = record {
  source = expiry_auto;
  source_ref = [];
  amount_vnd = 0;
  external_ref = [];
  actor_user_id = 0;
  note = [];
  ip_address = [];
}

-- DowngradeToFree, which runs outside a transaction: whether it succeeded, and the store.
unfoldable pub downgrade_to_free : Faults → ℕ → ℕ → Store → Bool × Store
downgrade_to_free down now user s = elim (find (plan_is plan_free) s.plans) [
  | none ↦ (false, s)
  | some _ ↦ if down (find_plan plan_free) then (false, s) else elim (read_sub down user s) [
    | none ↦ ensure_free down now user s
    | some sub ↦
        let s' = put_sub (free_sub user now) s in
        if down (save_subscription user)
        then (false, s)
        else if text_eq sub.plan_id plan_free
        then (true, s')
        else if down (insert_event user)
        then (false, s')
        else (
          true,
          record s' {
            events =
                event_of (free_sub user now) (email_of down user s') sub.plan_id expiry_context
                ∷ s'.events;
          },
        )
  ]
]

abbrev pub plan_of : Subscription → Store → Option PricingPlan
plan_of sub s = find (plan_is sub.plan_id) s.plans

abbrev pub is_lapsed : ℕ → Subscription → Bool
is_lapsed now sub =
    is_expired now sub || elim sub.status [ expired ↦ true | canceled ↦ true | _ ↦ false ]

-- The last two tests of GetEntitlements, on the row that is left.
unfoldable pub entitled : Faults → ℕ → ℕ → Option Subscription → Store → Entitlements × Store
entitled down now user none s = (default_free_entitlements, s)
entitled down now user (some sub) s =
    if is_active_status sub.status
    then (entitlements_from_plan (plan_of sub s), s)
    else (default_free_entitlements, (downgrade_to_free down now user s).1)

abbrev entitled_row : Faults → ℕ → ℕ → Subscription → Store → Entitlements × Store
entitled_row down now user sub s =
    if is_lapsed now sub
    then (let s' = (downgrade_to_free down now user s).1 in
        entitled down now user (read_sub down user s') s')
    else entitled down now user (some sub) s

abbrev entitled_found : Faults → ℕ → ℕ → Option Subscription → Store → Entitlements × Store
entitled_found down now user none s = (default_free_entitlements, s)
entitled_found down now user (some sub) s = entitled_row down now user sub s

unfoldable pub get_entitlements :
    Faults → ℕ → Option Config → ℕ → Bool → ℕ → Store → Entitlements × Store
unfolding entitled
get_entitlements down now cfg seats enforcing user s =
    if enforcing
    then elim (read_sub down user s) [
      | some sub ↦ entitled_row down now user sub s
      | none ↦
          let s' = (ensure_free down now user s).1 in
          entitled_found down now user (read_sub down user s') s'
    ]
    else (open_entitlements cfg seats, s)

-- What a request meets: the statements that fail, the clock, the configuration, the switch of the
-- licences; `seats` is model.DefaultProCollaboratorsPerQuiz.
pub record Setting : Type 0 where
  pub down : Faults
  pub now : ℕ
  pub config : Option Config
  pub seats : ℕ
  pub enforcing : Bool

-- GetEntitlements in a setting.
abbrev pub entitlements : Setting → ℕ → Store → Entitlements × Store
entitlements m user s = get_entitlements m.down m.now m.config m.seats m.enforcing user s
