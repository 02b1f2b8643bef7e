-- ===== src/License/ClawBack.antt =====
-- internal/pkg/license/revoke.go: taking the plan back from those who redeemed a code.
pub mod Rule
use koviobe.Base.{
  ℕ, Text, Bool, true, false, ◌&&◌, ◌||◌, Option, none, some, List, [], ◌∷◌, ◌==◌, reverse, select,
  if◌then◌else◌, is_empty, text_eq, find, Result, ok, err, ◌>>=◌, return, gets, or_fail,
}
use koviobe.Model.Errors.{
  Error, Faults, find_event, find_redemptions, db_error, nothing_to_claw_back,
}
use koviobe.Model.License.{
  SubscriptionEvent, LicenseRedemption, LicenseCode, GrantContext, Source, unset, code_redeem,
  admin_revoke, plan_free, Subscription,
}
use koviobe.Model.Store.{Store, Db, transaction}
use koviobe.License.Code.{normalize_code, revoke_code}
use koviobe.License.Term.{AssignOptions}
use koviobe.License.Plans.{set_plan, read_sub}

-- Why a redeemer is left alone: nothing is left, no event, or the source of a later grant.
pub data Reason : Type 0 where
  already_free no_history : Reason
  granted_by : Source → Reason

pub data ClawOutcome : Type 0 where
  revoked superseded nothing_left failed : ClawOutcome

abbrev pub is_redeem : Source → Bool
is_redeem code_redeem = true
is_redeem _ = false

abbrev judge_event : Text → Option SubscriptionEvent → Option Reason
judge_event code none = some no_history
judge_event code (some e) =
    if is_redeem e.source && text_eq (normalize_code e.source_ref) (normalize_code code)
    then none
    else some (granted_by e.source)

-- shouldClawBack: none is its `true`, and otherwise the reason.
unfoldable pub should_claw_back : Text → Text → Option SubscriptionEvent → Option Reason
should_claw_back code plan last =
    if is_empty plan || text_eq plan plan_free then some already_free else judge_event code last

abbrev pub outcome_for : Reason → ClawOutcome
outcome_for already_free = nothing_left
outcome_for _ = superseded

abbrev pub event_is_of : ℕ → SubscriptionEvent → Bool
event_is_of user e = e.user_id == user

-- The newest event of a user; the table has the newest first.
abbrev pub last_event : Faults → ℕ → Store → Option SubscriptionEvent
last_event down user s = if down (find_event user) then none else find (event_is_of user) s.events

abbrev pub plan_id_of : Option Subscription → Text
plan_id_of none = []
plan_id_of (some c) = c.plan_id

abbrev pub free_options : AssignOptions
free_options = record { ends_at_days = none; extend = false }

-- What the transaction of clawBackOne makes of the locked row: a plan taken, or a reason.
unfoldable pub claw_locked : Faults → ℕ → ℕ → Text → GrantContext → Db (Text × Option Reason)
claw_locked down now user code gc = do
  row ← gets (read_sub down user)
  sub ← or_fail row nothing_to_claw_back
  last ← gets (last_event down user)
  elim (should_claw_back code sub.plan_id last) [
    | some reason ↦ return (sub.plan_id, some reason)
    | none ↦ set_plan down now user plan_free free_options gc >>= λ _. return (sub.plan_id, none)
  ]

abbrev is_nothing : Error → Bool
is_nothing nothing_to_claw_back = true
is_nothing _ = false

-- The outcome of the transaction. A reason found under the lock rolls back a transaction that wrote
-- nothing; with no row there is no reason, which reads as superseded.
abbrev pub claw_outcome : Result Error (Text × Option Reason) × Store → ClawOutcome × Store
claw_outcome (ok (plan, none), s) = (revoked, s)
claw_outcome (ok (plan, some reason), s) = (outcome_for reason, s)
claw_outcome (err e, s) = (if is_nothing e then superseded else failed, s)

-- clawBackOne: the check outside the lock decides only whether a transaction is opened.
unfoldable pub claw_back_one : Faults → ℕ → ℕ → Text → GrantContext → Store → ClawOutcome × Store
claw_back_one down now user code gc s =
    elim (should_claw_back code (plan_id_of (read_sub down user s)) (last_event down user s)) [
      | some reason ↦ (outcome_for reason, s)
      | none ↦ claw_outcome (transaction down (claw_locked down now user code gc) s)
    ]

abbrev claw_taken : Result Error Subscription × Store → ClawOutcome × Store
claw_taken (ok _, s) = (revoked, s)
claw_taken (err _, s) = (failed, s)

-- ClawBackUser: an admin names the user, so the rule is not applied.
unfoldable pub claw_back_user : Faults → ℕ → ℕ → GrantContext → Store → ClawOutcome × Store
claw_back_user down now user gc s = elim (read_sub down user s) [
  | none ↦ (nothing_left, s)
  | some sub ↦
      if text_eq sub.plan_id plan_free
      then (nothing_left, s)
      else claw_taken (
          transaction down
            (set_plan down now user plan_free free_options
              (elim gc.source [ unset ↦ record gc { source = admin_revoke } | _ ↦ gc ]))
            s)
]

abbrev pub redeemed : Text → LicenseRedemption → Bool
redeemed code r = text_eq r.code code

-- The loop over the redeemers, in the order of their redemptions.
unfoldable pub claw_back_all :
    Faults
    → ℕ
    → Text
    → GrantContext
    → List LicenseRedemption
    → Store
    → List (ℕ × ClawOutcome) × Store
claw_back_all down now code gc [] s = ([], s)
claw_back_all down now code gc (r ∷ rs) s =
    let (out, s') = claw_back_one down now r.user_id code gc s in
    let (outs, s'') = claw_back_all down now code gc rs s' in ((r.user_id, out) ∷ outs, s'')

abbrev revoke_context : GrantContext → Text → GrantContext
revoke_context gc code = record gc { source = admin_revoke; source_ref = code }

abbrev claw_revoked :
    Faults
    → ℕ
    → GrantContext
    → Store
    → Result Error (LicenseCode × Store)
    → Result Error (List (ℕ × ClawOutcome)) × Store
claw_revoked down now gc s (err e) = (err e, s)
claw_revoked down now gc s (ok (c, s')) =
    if down find_redemptions
    then (err db_error, s')
    else (let (outs, s'') =
          claw_back_all down now c.code (revoke_context gc c.code)
            (reverse (select (redeemed c.code) s'.redemptions)) s' in
        (ok outs, s''))

-- ClawBackCode: the code is revoked first, and stays revoked whatever comes of its redeemers.
unfoldable pub claw_back_code :
    Faults → ℕ → Text → GrantContext → Store → Result Error (List (ℕ × ClawOutcome)) × Store
claw_back_code down now raw gc s = claw_revoked down now gc s (revoke_code down now raw s)
