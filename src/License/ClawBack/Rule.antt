-- ===== src/License/ClawBack/Rule.antt =====
-- Whose plan a revoked code takes back, and what becomes of everyone else.
use koviobe.Base.{
  ℕ, ◌≡◌, ◌≢◌, ◌↔◌, ◌⊎◌, inl, inr, refl, ap, Text, true, Option, none, some, ok, err, arith,
  Result-cases, Option-cases, text_eq_iff,
}
use koviobe.Model.Errors.{Error, Faults}
use koviobe.Model.License.{
  Source, code_redeem, SubscriptionEvent, Subscription, GrantContext, plan_free,
}
use koviobe.Model.Store.{Store, transaction}
use koviobe.Model.Rollback.{transaction-ok, transaction-cases}
use koviobe.License.Code.{normalize_code}
use koviobe.License.Term.{compute_term}
use koviobe.License.Plans.{read_sub, sub_of, set_plan, granted}
use koviobe.License.Plans.Granted.{Grants, set_plan-Grants}
use koviobe.License.ClawBack.{
  Reason, ClawOutcome, revoked, is_redeem, judge_event, should_claw_back, outcome_for, last_event,
  plan_id_of, free_options, claw_locked, claw_outcome, claw_back_one,
}

-- The plan was last given by the redemption of this very code.
pub record GaveIt (code plan : Text) (last : Option SubscriptionEvent) : Type 0 where
  pub event : SubscriptionEvent
  pub is_last : last ≡ some event
  pub by_code : event.source ≡ code_redeem
  pub this_code : normalize_code event.source_ref ≡ normalize_code code
  pub not_free : plan ≢ plan_free

is_redeem_iff : (x : Source) → (is_redeem x ≡ true) ↔ (x ≡ code_redeem)
is_redeem_iff x = ground arith

judge_event-GaveIt :
    (code plan : Text) (e : SubscriptionEvent)
    → plan ≢ plan_free
    → judge_event code (some e) ≡ none
    → GaveIt code plan (some e)
judge_event-GaveIt code plan e paid h = record {
  event = e;
  is_last = refl;
  by_code = ground (arith, h, is_redeem_iff e.source);
  this_code = ground (arith, h, text_eq_iff (normalize_code e.source_ref) (normalize_code code));
  not_free = paid;
}

pub should_claw_back-GaveIt :
    (code plan : Text) (last : Option SubscriptionEvent)
    → should_claw_back code plan last ≡ none
    → GaveIt code plan last
unfolding should_claw_back
should_claw_back-GaveIt code plan none h = absurd (ground (arith, h))
should_claw_back-GaveIt code plan (some e) h =
    judge_event-GaveIt code plan e (λ p. ground (arith, h, p, text_eq_iff plan plan_free))
      (ground (arith, h))

-- The user's plan was taken: it came from this code and no later grant, and the user's row is now the
-- free plan, without an end.
pub record Takes (down : Faults) (now user : ℕ) (code : Text) (s s' : Store) : Type 0 where
  pub taken : Subscription
  pub held : read_sub down user s ≡ some taken
  pub due : GaveIt code taken.plan_id (last_event down user s)
  pub left : Subscription
  pub current : sub_of user s' ≡ some left
  pub plan : left.plan_id ≡ plan_free
  pub endless : left.ends_at ≡ none
  pub codes_kept : s'.license_codes ≡ s.license_codes
  pub redemptions_kept : s'.redemptions ≡ s.redemptions

granted-free :
    (now user : ℕ) (current : Option Subscription)
    → ((granted now user current plan_free free_options).plan_id ≡ plan_free)
      × ((granted now user current plan_free free_options).ends_at ≡ none)
unfolding compute_term
granted-free now user current = (refl, ground (arith, text_eq_iff plan_free plan_free))

from_grant :
    {down : Faults} {now user : ℕ} {code : Text} {gc : GrantContext} {s : Store}
    {row : Subscription} {s' : Store} (sub : Subscription)
    → read_sub down user s ≡ some sub
    → GaveIt code sub.plan_id (last_event down user s)
    → Grants down now user plan_free free_options gc s row s'
    → Takes down now user code s s'
from_grant {down} {now} {user} {row = row} sub p due g = record {
  taken = sub;
  held = p;
  due = due;
  left = row;
  current = g.current;
  plan = ground (arith, g.row, (granted-free now user (some sub)).0, p);
  endless = ground (arith, g.row, (granted-free now user (some sub)).1, p);
  codes_kept = g.codes_kept;
  redemptions_kept = g.redemptions_kept;
}

claw_locked-Takes :
    (down : Faults) (now user : ℕ) (code : Text) (gc : GrantContext) (s : Store) (plan : Text)
    (s' : Store)
    → claw_locked down now user code gc s ≡ ok ((plan, none), s')
    → Takes down now user code s s'
unfolding claw_locked
claw_locked-Takes down now user code gc s plan s' h = elim (Option-cases (read_sub down user s)) [
  | inl p ↦ absurd (ground (arith, p, h))
  | inr (sub, p) ↦
      elim (Option-cases (should_claw_back code sub.plan_id (last_event down user s))) [
        | inr (reason, q) ↦ absurd (ground (arith, p, q, h))
        | inl q ↦ elim (Result-cases (set_plan down now user plan_free free_options gc s)) [
          | inl (e, r) ↦ absurd (ground (arith, p, q, r, h))
          | inr ((row, s₁), r) ↦ from_grant sub p (should_claw_back-GaveIt code sub.plan_id _ q) (
              set_plan-Grants down now user plan_free free_options gc s row s'
                (ground (arith, p, q, r, h)))
        ]
      ]
]

reason-kept : (r : Reason) → outcome_for r ≢ revoked
reason-kept r = λ h. ground (arith, h)

claw_locked-kept :
    (down : Faults) (now user : ℕ) (code : Text) (gc : GrantContext) (s : Store) (plan : Text)
    (reason : Reason) (s' : Store)
    → claw_locked down now user code gc s ≡ ok ((plan, some reason), s')
    → s' ≡ s
unfolding claw_locked
claw_locked-kept down now user code gc s plan reason s' h =
    elim (Option-cases (read_sub down user s)) [
      | inl p ↦ absurd (ground (arith, p, h))
      | inr (sub, p) ↦
          elim (Option-cases (should_claw_back code sub.plan_id (last_event down user s))) [
            | inr (r, q) ↦ ground (arith, p, q, h)
            | inl q ↦ elim (Result-cases (set_plan down now user plan_free free_options gc s)) [
              | inl (e, r) ↦ absurd (ground (arith, p, q, r, h))
              | inr ((row, s₁), r) ↦ absurd (ground (arith, p, q, r, h))
            ]
          ]
    ]

failed-kept : (e : Error) (s : Store) → (claw_outcome (err e, s)).0 ≢ revoked
failed-kept e s = λ h. ground (arith, h)

locked-cases :
    (down : Faults) (now user : ℕ) (code : Text) (gc : GrantContext) (s : Store) (s' : Store)
    (out : ClawOutcome)
    → claw_outcome (transaction down (claw_locked down now user code gc) s) ≡ (out, s')
    → ((out ≡ revoked) × Takes down now user code s s') ⊎ ((out ≢ revoked) × (s' ≡ s))
locked-cases down now user code gc s s' out h =
    elim (transaction-cases down (claw_locked down now user code gc) s) [
      | inl (e, p) ↦ inr ((λ q. failed-kept e s (ground (arith, p, h, q))), ground (arith, p, h))
      | inr ((plan, some reason), s₁, p) ↦ inr (
        (λ q. reason-kept reason (ground (arith, p, h, q))),
        ground (
          arith,
          p,
          h,
          claw_locked-kept down now user code gc s plan reason s₁
              (transaction-ok down (claw_locked down now user code gc) s _ s₁ p),
        ),
      )
      | inr ((plan, none), s₁, p) ↦ inl (
        ground (arith, p, h),
        claw_locked-Takes down now user code gc s plan s'
            (transaction-ok down (claw_locked down now user code gc) s _ s' (ground (arith, p, h))),
      )
    ]

-- A redeemer of a revoked code loses the plan only if the newest event of that user is the
-- redemption of this code and the plan is not free: then the free plan, without an end, is left, and
-- no code is touched. With any other outcome every table is as it was.
pub claw_back_one-fair :
    (down : Faults) (now user : ℕ) (code : Text) (gc : GrantContext) (s : Store) (out : ClawOutcome)
    (s' : Store)
    → claw_back_one down now user code gc s ≡ (out, s')
    → ((out ≡ revoked) × Takes down now user code s s') ⊎ ((out ≢ revoked) × (s' ≡ s))
unfolding claw_back_one
claw_back_one-fair down now user code gc s out s' h =
    elim (Option-cases
      (should_claw_back code (plan_id_of (read_sub down user s)) (last_event down user s))) [
        | inl p ↦ locked-cases down now user code gc s s' out (ground (arith, p, h))
        | inr (r, p) ↦ inr ((λ e. reason-kept r (ground (arith, p, h, e))), ground (arith, p, h))
      ]

-- Taking a plan back leaves the redemptions as they are.
pub claw_back_one-redemptions :
    (down : Faults) (now user : ℕ) (code : Text) (gc : GrantContext) (s : Store)
    → (claw_back_one down now user code gc s).1.redemptions ≡ s.redemptions
claw_back_one-redemptions down now user code gc s =
    let done = claw_back_one down now user code gc s in
    elim (claw_back_one-fair down now user code gc s done.0 done.1 refl) [
      | inl (_, t) ↦ t.redemptions_kept
      | inr (_, same) ↦ ap (λ x. x.redemptions) same
    ]
