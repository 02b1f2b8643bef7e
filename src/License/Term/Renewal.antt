-- ===== src/License/Term/Renewal.antt =====
-- The renewal arithmetic (computeTerm) and the guard against a lower tier.
use koviobe.Base.{
  ℕ, ◌+◌, ◌*◌, ◌^◌, ◌<◌, ◌≡◌, ◌≢◌, ◌↔◌, ◌⊎◌, inl, inr, refl, Text, true, false, Option, none, some,
  arith, text_eq, text_eq_iff, codes, leb, if◌then◌else◌, Option-cases, Bool-cases,
}
use koviobe.Model.License.{Subscription, active, plan_free, plan_edu, plan_pro, plan_business}
use koviobe.License.Term.{compute_term, is_over, plan_rank, replaces_higher_live_term}

-- Paying for more days of the plan that one has, if that plan is not the free one, adds exactly those
-- days of 24 hours to the later of the present end and now: whether the term runs or has lapsed, no
-- time that is left is lost and none that has passed is paid for. A lifetime stays one.
pub compute_term_renews :
    (now days : ℕ) (c : Subscription) (plan : Text)
    → plan ≢ plan_free
    → c.plan_id ≡ plan
    → ((c.ends_at ≡ none)
        × ((compute_term now (some c) plan (record { ends_at_days = some days; extend = true })).1
            ≡ none))
      ⊎ ((e : ℕ) × (c.ends_at ≡ some e)
          × ((compute_term now (some c) plan (record { ends_at_days = some days; extend = true })).1
              ≡ some ((if leb e now then now else e) + days * (24 * 3600 * 10 ^ 9))))
unfolding compute_term
compute_term_renews now days c plan paid same =
    let free : text_eq plan plan_free ≡ false = ground (arith, text_eq_iff plan plan_free, paid) in
    let ours = (text_eq_iff c.plan_id plan).1 same in
    elim (Option-cases c.ends_at) [
      | inl p ↦ inl (p, ground (arith, free, ours, p))
      | inr (e, p) ↦ elim (Bool-cases (is_over now c.ends_at)) [
        | inl over ↦ inr (e, p, ground (arith, free, ours, p, over))
        | inr live ↦ inr (e, p, ground (arith, free, ours, p, live))
      ]
    ]

-- A term that has no end, or an end to come.
abbrev pub Runs : ℕ → Option ℕ → Type 0
Runs now none = Unit
Runs now (some e) = now < e

is_over-Runs : (now : ℕ) (end : Option ℕ) → is_over now end ≡ false → Runs now end
is_over-Runs now none h = tt
is_over-Runs now (some e) h = ground (arith, h)

Runs-is_over : (now : ℕ) (end : Option ℕ) → Runs now end → is_over now end ≡ false
Runs-is_over now none h = refl
Runs-is_over now (some e) h = ground (arith, h)

-- The tiers, lowest first.
abbrev pub Tier : Text → ℕ → Type 0
Tier id n =
    ((id ≡ codes "free") × (n ≡ 0))
    ⊎ ((id ≡ codes "edu") × (n ≡ 1))
    ⊎ ((id ≡ codes "pro") × (n ≡ 2))
    ⊎ ((id ≡ codes "business") × (n ≡ 3))

plan_rank-Tier : (id : Text) (n : ℕ) → plan_rank id ≡ some n → Tier id n
unfolding plan_rank
plan_rank-Tier id n h = elim (Bool-cases (text_eq id plan_free)) [
  | inl a ↦ inl ((text_eq_iff id plan_free).0 a, ground (arith, a, h))
  | inr a ↦ elim (Bool-cases (text_eq id plan_edu)) [
    | inl b ↦ inr (inl ((text_eq_iff id plan_edu).0 b, ground (arith, a, b, h)))
    | inr b ↦ elim (Bool-cases (text_eq id plan_pro)) [
      | inl c ↦ inr (inr (inl ((text_eq_iff id plan_pro).0 c, ground (arith, a, b, c, h))))
      | inr c ↦ elim (Bool-cases (text_eq id plan_business)) [
        | inl d ↦
            inr (inr (inr ((text_eq_iff id plan_business).0 d, ground (arith, a, b, c, d, h))))
        | inr d ↦ absurd (ground (arith, a, b, c, d, h))
      ]
    ]
  ]
]

Tier-plan_rank : (id : Text) (n : ℕ) → Tier id n → plan_rank id ≡ some n
unfolding plan_rank text_eq
Tier-plan_rank id n (inl (e, k)) = rw (e, k) refl
Tier-plan_rank id n (inr (inl (e, k))) = rw (e, k) refl
Tier-plan_rank id n (inr (inr (inl (e, k)))) = rw (e, k) refl
Tier-plan_rank id n (inr (inr (inr (e, k)))) = rw (e, k) refl

-- A lower tier is refused over a live one of a higher rank and nothing else is: the guard holds exactly
-- if the current plan is active, has no end or one to come, and both plans are among free,
-- edu, pro and business, with the current one further up in that order.
pub replaces_higher_live_term_iff :
    (now : ℕ) (c : Subscription) (plan : Text)
    → (replaces_higher_live_term now (some c) plan ≡ true) ↔ (
        (c.status ≡ active)
        × Runs now c.ends_at
        × ((cur : ℕ) × (next : ℕ) × Tier c.plan_id cur × Tier plan next × (next < cur)))
unfolding replaces_higher_live_term
replaces_higher_live_term_iff now c plan = (there, back)
  where
    there :
        replaces_higher_live_term now (some c) plan ≡ true
        → (c.status ≡ active)
          × Runs now c.ends_at
          × ((cur : ℕ) × (next : ℕ) × Tier c.plan_id cur × Tier plan next × (next < cur))
    there h = elim (Option-cases (plan_rank c.plan_id)) [
      | inl e ↦ absurd (ground (arith, e, h))
      | inr (cur, e) ↦ elim (Option-cases (plan_rank plan)) [
        | inl e' ↦ absurd (ground (arith, e, e', h))
        | inr (next, e') ↦ (
          ground (arith, h),
          is_over-Runs now c.ends_at (ground (arith, h)),
          (
            cur,
            next,
            plan_rank-Tier c.plan_id cur e,
            plan_rank-Tier plan next e',
            ground (arith, e, e', h),
          ),
        )
      ]
    ]

    back :
        (c.status ≡ active)
          × Runs now c.ends_at
          × ((cur : ℕ) × (next : ℕ) × Tier c.plan_id cur × Tier plan next × (next < cur))
        → replaces_higher_live_term now (some c) plan ≡ true
    back (st, runs, (cur, next, t, t', lt)) =
        let live = Runs-is_over now c.ends_at runs in
        let e = Tier-plan_rank c.plan_id cur t in
        let e' = Tier-plan_rank plan next t' in ground (arith, st, live, e, e', lt)
