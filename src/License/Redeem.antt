-- ===== src/License/Redeem.antt =====
-- RedeemCode (internal/pkg/license/code.go): applying an activation code to a subscription.
pub mod Used
use koviobe.Base.{
  ℕ, Text, Bool, true, false, ◌&&◌, not, Option, none, some, ◌∷◌, ◌==◌, ltb, leb, if◌then◌else◌,
  text_eq, find, update_where, add_int, is_positive, Result, ok, err, ◌>>=◌, ◌>>◌, fail, guard,
  gets, modify, or_fail,
}
use koviobe.Model.Errors.{
  Error, Faults, find_code, use_code, insert_redemption, find_plan, code_not_found, code_revoked,
  code_expired, code_exhausted, code_already_used, code_plan_inactive, code_lower_tier,
}
use koviobe.Model.License.{LicenseCode, LicenseRedemption, Subscription, GrantContext, code_redeem}
use koviobe.Model.Store.{Store, Db, stmt, transaction}
use koviobe.License.Code.{normalize_code, code_is, plan_active}
use koviobe.License.Term.{AssignOptions, replaces_higher_live_term}
use koviobe.License.Plans.{set_plan, read_sub, Entitlements, get_entitlements}
use koviobe.Model.Config.{Config}

abbrev pub is_set : Option ℕ → Bool
is_set none = false
is_set (some _) = true

abbrev pub stale : ℕ → Option ℕ → Bool
stale now none = false
stale now (some e) = ltb e now

-- A signed comparison of two counters that no code lets below zero.
abbrev pub exhausted : LicenseCode → Bool
exhausted c = leb c.max_uses c.used_count

abbrev pub redemption_of : Text → ℕ → LicenseRedemption → Bool
redemption_of code user r = text_eq r.code code && r.user_id == user

abbrev pub redemption : LicenseCode → ℕ → Text → LicenseRedemption
redemption c user ip = record {
  code = c.code;
  user_id = user;
  plan_id = c.plan_id;
  ip_address = ip;
}

-- The unique index on (code, user_id): INSERT … ON CONFLICT DO NOTHING, no row is an error.
unfoldable pub record_redemption : Faults → LicenseCode → ℕ → Text → Db (Unit {0})
record_redemption down c user ip = do
  stmt down insert_redemption
  there ← gets (λ s. find (redemption_of c.code user) s.redemptions)
  elim there [
    | some _ ↦ fail code_already_used
    | none ↦ modify (λ s. record s { redemptions = redemption c user ip ∷ s.redemptions })
  ]

abbrev pub use_one : LicenseCode → LicenseCode
use_one c = record c { used_count = add_int c.used_count 1 }

-- UPDATE … SET used_count = used_count + 1.
unfoldable pub count_use : Faults → Text → Db (Unit {0})
count_use down code = do
  stmt down use_code
  modify (λ s. record s { license_codes = update_where (code_is code) use_one s.license_codes })

abbrev pub redeem_options : LicenseCode → AssignOptions
redeem_options c = record {
  ends_at_days = if is_positive c.duration_days then some c.duration_days else none;
  extend = true;
}

abbrev pub redeem_context : LicenseCode → ℕ → Text → GrantContext
redeem_context c user ip = record {
  source = code_redeem;
  source_ref = c.code;
  amount_vnd = c.amount_vnd;
  external_ref = c.external_ref;
  actor_user_id = user;
  note = c.note;
  ip_address = ip;
}

-- The checks on a locked code, before anything is written.
unfoldable pub check_code : Faults → ℕ → ℕ → LicenseCode → Db (Unit {0})
check_code down now user c = do
  guard (not (is_set c.revoked_at)) code_revoked
  guard (not (stale now c.expires_at)) code_expired
  guard (not (exhausted c)) code_exhausted
  offered ← gets (λ s. find (plan_active c.plan_id) s.plans)
  guard (not (down (find_plan c.plan_id))) code_plan_inactive
  p ← or_fail offered code_plan_inactive
  current ← gets (read_sub down user)
  guard (not (replaces_higher_live_term now current c.plan_id)) code_lower_tier

unfoldable pub redeem_locked : Faults → ℕ → ℕ → Text → LicenseCode → Db Subscription
redeem_locked down now user ip c = do
  check_code down now user c
  record_redemption down c user ip
  count_use down c.code
  set_plan down now user c.plan_id (redeem_options c) (redeem_context c user ip)

abbrev pub redeem_body : Faults → ℕ → ℕ → Text → Text → Db Subscription
redeem_body down now user raw ip = do
  stmt down find_code
  row ← gets (λ s. find (code_is (normalize_code raw)) s.license_codes)
  c ← or_fail row code_not_found
  redeem_locked down now user ip c

-- The transaction of RedeemCode.
unfoldable pub redeem_tx : Faults → ℕ → ℕ → Text → Text → Store → Result Error Subscription × Store
redeem_tx down now user raw ip = transaction down (redeem_body down now user raw ip)

-- RedeemCode: the limits that the user has afterwards are read outside the transaction, and their
-- reading may write a row of its own.
unfoldable pub redeem_code :
    Faults
    → Faults
    → ℕ
    → ℕ
    → Option Config
    → ℕ
    → Bool
    → ℕ
    → Text
    → Text
    → Store
    → Result Error (Subscription × Entitlements) × Store
redeem_code down down' now later cfg seats enforcing user raw ip s =
    let (res, s') = redeem_tx down now user raw ip s in
    let (ents, s'') = get_entitlements down' later cfg seats enforcing user s' in
    elim res [ err e ↦ (err e, s') | ok sub ↦ (ok (sub, ents), s'') ]
