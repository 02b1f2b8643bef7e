-- ===== src/Payment/Gateway/Ipn.antt =====
-- Which notifications of the gateway are money, and what one does to the store.
use koviobe.Base.{
  ◌≡◌, ◌≢◌, ◌⊎◌, ◌↔◌, inl, inr, refl, Text, true, false, [], ◌∷◌, codes, is_empty, text_eq,
  text_eq_iff, trim_space, some, ℕ, if◌then◌else◌, arith, Option-cases, Bool-cases,
}
use koviobe.Payment.Amount.{parse_vnd}
use koviobe.Payment.Gateway.{GatewayIpn, paid_problem, is_other, currency_of, amount_text}

-- A field that is left empty or holds the one value that is let through.
abbrev pub Allowed : Text → Text → Type 0
Allowed t expected = (t ≡ []) ⊎ (t ≡ expected)

is_empty_iff : (t : Text) → (is_empty t ≡ true) ↔ (t ≡ [])
is_empty_iff [] = ground arith
is_empty_iff (c ∷ t) = ground arith

pub is_other-false : (t expected : Text) → (is_other t expected ≡ false) ↔ Allowed t expected
is_other-false [] expected = ((λ _. inl refl), λ _. refl)
is_other-false (c ∷ t) expected = (
  (λ h. inr ((text_eq_iff (c ∷ t) expected).0 (ground (arith, h)))),
  λ a. elim a [
    | inl e ↦ ground (arith, e)
    | inr e ↦ ground (arith, (text_eq_iff (c ∷ t) expected).1 e)
  ],
)

-- The transaction's currency is đồng, or it has none and the order's is đồng or is not given either.
abbrev pub InVnd : GatewayIpn → Type 0
InVnd n =
    ((n.transaction_currency ≢ []) × (n.transaction_currency ≡ codes "VND"))
    ⊎ ((n.transaction_currency ≡ []) × Allowed n.order_currency (codes "VND"))

-- The amount that counts: the transaction's, or the order's where the transaction's is blank.
abbrev pub Amounts : GatewayIpn → ℕ → Type 0
Amounts n a =
    ((trim_space n.transaction_amount ≢ []) × (parse_vnd n.transaction_amount ≡ some a))
    ⊎ ((trim_space n.transaction_amount ≡ []) × (parse_vnd n.order_amount ≡ some a))

pick_currency :
    (own other v : Text)
    → Allowed (if is_empty own then other else own) v
      ↔ (((own ≢ []) × (own ≡ v)) ⊎ ((own ≡ []) × Allowed other v))
pick_currency [] other v =
    ((λ a. inr (refl, a)), λ x. elim x [ inl (n, _) ↦ absurd (n refl) | inr (_, a) ↦ a ])
pick_currency (c ∷ t) other v = (
  (λ a. elim a [ inl e ↦ absurd (ground (arith, e)) | inr e ↦ inl ((λ p. cc), e) ]),
  λ x. elim x [ inl (_, e) ↦ inr e | inr (p, _) ↦ absurd (ground (arith, p)) ],
)

pick_amount :
    (blank own other : Text) (a : ℕ)
    → (parse_vnd (if is_empty blank then other else own) ≡ some a)
      ↔ (((blank ≢ []) × (parse_vnd own ≡ some a)) ⊎ ((blank ≡ []) × (parse_vnd other ≡ some a)))
pick_amount [] own other a =
    ((λ e. inr (refl, e)), λ x. elim x [ inl (n, _) ↦ absurd (n refl) | inr (_, e) ↦ e ])
pick_amount (c ∷ t) own other a = (
  (λ e. inl ((λ p. cc), e)),
  λ x. elim x [ inl (_, e) ↦ e | inr (p, _) ↦ absurd (ground (arith, p)) ],
)

pub amount_text-Amounts :
    (n : GatewayIpn) (a : ℕ) → (parse_vnd (amount_text n) ≡ some a) ↔ Amounts n a
amount_text-Amounts n a =
    pick_amount (trim_space n.transaction_amount) n.transaction_amount n.order_amount a

-- A captured, approved payment in đồng whose amount can be read.
pub record IsMoney (n : GatewayIpn) : Type 0 where
  pub captured : n.order_status ≡ codes "CAPTURED"
  pub approved : Allowed n.transaction_status (codes "APPROVED")
  pub payment : Allowed n.transaction_type (codes "PAYMENT")
  pub vnd : InVnd n
  pub amount : (a : ℕ) × Amounts n a

problem-IsMoney : (n : GatewayIpn) → paid_problem n ≡ [] → IsMoney n
unfolding paid_problem
problem-IsMoney n h = elim (Bool-cases (text_eq n.order_status (codes "CAPTURED"))) [
  | inr e ↦ absurd (ground (arith, e, h))
  | inl cap ↦ elim (Bool-cases (is_other n.transaction_status (codes "APPROVED"))) [
    | inl e ↦ absurd (ground (arith, cap, e, h))
    | inr app ↦ elim (Bool-cases (is_other n.transaction_type (codes "PAYMENT"))) [
      | inl e ↦ absurd (ground (arith, cap, app, e, h))
      | inr pay ↦ elim (Bool-cases (is_other (currency_of n) (codes "VND"))) [
        | inl e ↦ absurd (ground (arith, cap, app, pay, e, h))
        | inr vnd ↦ elim (Option-cases (parse_vnd (amount_text n))) [
          | inl e ↦ absurd (ground (arith, cap, app, pay, vnd, e, h))
          | inr (a, e) ↦ record {
            captured = (text_eq_iff n.order_status (codes "CAPTURED")).0 cap;
            approved = (is_other-false n.transaction_status (codes "APPROVED")).0 app;
            payment = (is_other-false n.transaction_type (codes "PAYMENT")).0 pay;
            vnd =
                (pick_currency n.transaction_currency n.order_currency (codes "VND")).0
                  ((is_other-false (currency_of n) (codes "VND")).0 vnd);
            amount = (a, (amount_text-Amounts n a).0 e);
          }
        ]
      ]
    ]
  ]
]

money-problem : (n : GatewayIpn) → IsMoney n → paid_problem n ≡ []
unfolding paid_problem
money-problem n m =
    let cap = (text_eq_iff n.order_status (codes "CAPTURED")).1 m.captured in
    let app = (is_other-false n.transaction_status (codes "APPROVED")).1 m.approved in
    let pay = (is_other-false n.transaction_type (codes "PAYMENT")).1 m.payment in
    let vnd =
      (is_other-false (currency_of n) (codes "VND")).1
        ((pick_currency n.transaction_currency n.order_currency (codes "VND")).1 m.vnd) in
    let (a, counts) = m.amount in
    let e = (amount_text-Amounts n a).1 counts in
    rw (cap, paid_problem) (rw app (rw pay (rw vnd (rw e))))

pub paid_problem_iff : (n : GatewayIpn) → (paid_problem n ≡ []) ↔ IsMoney n
paid_problem_iff n = (problem-IsMoney n, money-problem n)
