-- ===== src/License/Plans/Granted.antt =====
-- What setPlanTx leaves in the tables.
use koviobe.Base.{
  ℕ, ◌≡◌, ◌≢◌, inl, inr, refl, Text, true, Option, none, some, List, [], ◌∷◌, find, update_where,
  ok, arith, Option-cases, Bool-cases, ==_iff,
}
use koviobe.Model.Errors.{Faults}
use koviobe.Model.License.{Subscription, SubscriptionEvent, GrantContext, User}
use koviobe.Model.Store.{Store}
use koviobe.License.Code.{plan_active}
use koviobe.License.Term.{AssignOptions}
use koviobe.License.Plans.{
  set_plan, event_of, index_ok, days_ok, previous_plan, user_is, is_of, sub_of, read_sub, granted,
  source_of, write_sub, record_event,
}

find-update_where-put :
    (user : ℕ) (sub : Subscription) (xs : List Subscription)
    → sub.user_id ≡ user
    → find (is_of user) xs ≢ none
    → find (is_of user) (update_where (is_of user) (λ _. sub) xs) ≡ some sub
unfolding find update_where
find-update_where-put user sub [] e there = absurd (there refl)
find-update_where-put user sub (x ∷ xs) e there = elim (Bool-cases (is_of user x)) [
  | inl p ↦ ground (arith, p, e, ==_iff sub.user_id user)
  | inr p ↦
      ground (arith, p, find-update_where-put user sub xs e (λ q. there (ground (arith, p, q))))
]

-- The run of a grant that succeeds, by the user's row u.
set_plan-run :
    (down : Faults) (now user : ℕ) (plan : Text) (opts : AssignOptions) (gc : GrantContext)
    (s : Store) (sub : Subscription) (s' : Store) (u : User)
    → find (user_is user) s.users ≡ some u
    → set_plan down now user plan opts gc s ≡ ok (sub, s')
    → (sub ≡ granted now user (read_sub down user s) plan opts)
      × (index_ok (read_sub down user s) (sub_of user s) ≡ true)
      × (record_event down
            (granted now user (read_sub down user s) plan opts)
            u.email
            (previous_plan (read_sub down user s))
            gc
            (write_sub (read_sub down user s) (granted now user (read_sub down user s) plan opts) s)
          ≡ ok (tt, s'))
unfolding set_plan record_event
set_plan-run down now user plan opts gc s sub s' u found h =
    elim (Option-cases (find (plan_active plan) s.plans)) [
      | inl p ↦ absurd (ground (arith, p, h))
      | inr (q, p) ↦ elim (Bool-cases (days_ok plan opts.ends_at_days)) [
        | inl d ↦ (
          ground (arith, found, p, d, h),
          ground (arith, found, p, d, h),
          ground (arith, found, p, d, h),
        )
        | inr d ↦ absurd (ground (arith, found, p, d, h))
      ]
    ]

write_sub-current :
    (down : Faults) (user : ℕ) (sub : Subscription) (s : Store)
    → sub.user_id ≡ user
    → index_ok (read_sub down user s) (sub_of user s) ≡ true
    → find (is_of user) (write_sub (read_sub down user s) sub s).subscriptions ≡ some sub
unfolding find
write_sub-current down user sub s e fine = elim (Option-cases (read_sub down user s)) [
  | inl p ↦ ground (arith, p, e, ==_iff sub.user_id user)
  | inr (c, p) ↦
      ground
        (arith, p, e, find-update_where-put user sub s.subscriptions e (λ q. ground (arith, p, q)))
]

write_sub-kept :
    (current : Option Subscription) (sub : Subscription) (s : Store)
    → ((write_sub current sub s).license_codes ≡ s.license_codes)
      × ((write_sub current sub s).redemptions ≡ s.redemptions)
      × ((write_sub current sub s).events ≡ s.events)
write_sub-kept none sub s = (refl, refl, refl)
write_sub-kept (some _) sub s = (refl, refl, refl)

-- A grant writes the user's one row, files one event of its source for it, and touches no code,
-- redemption, order or transfer.
pub record Grants (down : Faults) (now user : ℕ) (plan : Text) (opts : AssignOptions)
    (gc : GrantContext) (s : Store) (sub : Subscription) (s' : Store) : Type 0 where
  pub row : sub ≡ granted now user (read_sub down user s) plan opts
  pub current : sub_of user s' ≡ some sub
  pub filed : SubscriptionEvent
  pub events : s'.events ≡ filed ∷ s.events
  pub of_source : filed.source ≡ source_of gc
  pub of_ref : filed.source_ref ≡ gc.source_ref
  pub of_user : filed.user_id ≡ user
  pub codes_kept : s'.license_codes ≡ s.license_codes
  pub redemptions_kept : s'.redemptions ≡ s.redemptions

pub set_plan-Grants :
    (down : Faults) (now user : ℕ) (plan : Text) (opts : AssignOptions) (gc : GrantContext)
    (s : Store) (sub : Subscription) (s' : Store)
    → set_plan down now user plan opts gc s ≡ ok (sub, s')
    → Grants down now user plan opts gc s sub s'
unfolding set_plan record_event
set_plan-Grants down now user plan opts gc s sub s' h =
    elim (Option-cases (find (user_is user) s.users)) [
      | inl p ↦ absurd (refused p)
      | inr (u, p) ↦ from_run u (set_plan-run down now user plan opts gc s sub s' u p h)
    ]
  where
    refused : find (user_is user) s.users ≡ none → ⊥
    refused p = elim (Option-cases (find (plan_active plan) s.plans)) [
      | inl q ↦ ground (arith, p, q, h)
      | inr (q, e) ↦ ground (arith, p, e, h)
    ]

    from_run :
        (u : User)
        → (sub ≡ granted now user (read_sub down user s) plan opts)
          × (index_ok (read_sub down user s) (sub_of user s) ≡ true)
          × (record_event down
                (granted now user (read_sub down user s) plan opts)
                u.email
                (previous_plan (read_sub down user s))
                gc
                (write_sub
                  (read_sub down user s)
                  (granted now user (read_sub down user s) plan opts)
                  s)
              ≡ ok (tt, s'))
        → Grants down now user plan opts gc s sub s'
    from_run u (e, fine, filing) =
        let (codes_same, redemptions_same, events_same) =
          write_sub-kept (read_sub down user s) (granted now user (read_sub down user s) plan opts)
            s in
        let now_current =
          write_sub-current down user (granted now user (read_sub down user s) plan opts) s refl
            fine in
        record {
          row = e;
          current = ground (arith, e, filing, now_current);
          filed =
              event_of (granted now user (read_sub down user s) plan opts) u.email
                (previous_plan (read_sub down user s)) gc;
          events = ground (arith, filing, events_same);
          of_source = refl;
          of_ref = refl;
          of_user = refl;
          codes_kept = ground (arith, filing, codes_same);
          redemptions_kept = ground (arith, filing, redemptions_same);
        }
