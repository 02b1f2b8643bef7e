-- ===== src/Payment/Sepay/Ledger.antt =====
-- The ledger of transfers: when a transfer is on record, and what recording one does to it.
use koviobe.Base.{
  ℕ, ◌≡◌, ◌⊎◌, inl, inr, refl, Text, Bool, true, false, Option, none, some, List, [], ◌∷◌, ◌++◌,
  ◌==◌, update_where, ok, arith, Result-cases, Bool-cases,
}
use koviobe.Model.Errors.{Faults}
use koviobe.Model.License.{LicenseCode, GrantContext, payment_sepay}
use koviobe.Model.Payment.{
  PaymentOrder, OrderStatus, BankTransaction, TxnStatus, unmatched, ignored, paid, pending, expired,
  cancelled,
}
use koviobe.Model.Config.{Config}
use koviobe.Model.Store.{Store}
use koviobe.License.Code.{Reader}
use koviobe.Payment.Code.{order_code_candidates}
use koviobe.Payment.Settle.{settle, set_txn, with_match, Settled}
use koviobe.Payment.Settle.Cases.{settle_pays, settle_withholds, Paid, Withheld, IsPayable}
use koviobe.Payment.Sepay.{
  Outcome, find_candidate, place, settle_found, grant_context, sepay_ref, is_incoming,
}

-- Every transfer that is settled is written as one, and only its own row.
abbrev pub Marked : BankTransaction → Store → Store → Type 0
Marked t s s' =
    (st : TxnStatus) × (order : Option PaymentOrder) × (s'.txns
      ≡ update_where (λ r. r.id == t.id) (with_match st order []) s.txns)

-- What a settled transfer does to the table of codes.
abbrev pub MintsIfPaid : Bool → Store → Store → Type 0
MintsIfPaid is_paid s s' =
    ((is_paid ≡ true) × (c : LicenseCode) × (s'.license_codes ≡ c ∷ s.license_codes))
    ⊎ ((is_paid ≡ false) × (s'.license_codes ≡ s.license_codes))

IsPayable-cases : (o : PaymentOrder) → IsPayable o ⊎ (¬ IsPayable o)
IsPayable-cases o = by_status o.status refl
  where
    by_status : (st : OrderStatus) → o.status ≡ st → IsPayable o ⊎ (¬ IsPayable o)
    by_status pending e = inl (inl e)
    by_status expired e = inl (inr e)
    by_status paid e = inr (λ p. ground (arith, p, e))
    by_status cancelled e = inr (λ p. ground (arith, p, e))
    by_status OrderStatus.needs_review e = inr (λ p. ground (arith, p, e))

-- The two outcomes of `settle`, as one.
pub settle_cases :
    (down : Faults) (now : ℕ) (r : Reader) (t : BankTransaction) (o : PaymentOrder)
    (gc : GrantContext) (s : Store) (z : Settled) (s' : Store)
    → settle down now r t o gc s ≡ ok (z, s')
    → ((gc' : GrantContext) × (t.amount_vnd ≡ o.amount_vnd) × IsPayable o × Paid now t o gc' s z s')
      ⊎ Withheld t o s z s'
settle_cases down now r t o gc s z s' h = elim (Bool-cases (t.amount_vnd == o.amount_vnd)) [
  | inr off ↦ inr (settle_withholds down now r t o gc s z s' (inl (λ e. ground (arith, off, e))) h)
  | inl e ↦ elim (IsPayable-cases o) [
    | inr off ↦ inr (settle_withholds down now r t o gc s z s' (inr off) h)
    | inl p ↦
        let exact : t.amount_vnd ≡ o.amount_vnd = ground (arith, e) in
        inl (_, exact, p, settle_pays down now r t o gc s z s' exact p h)
  ]
]

pub settle-Marked :
    (down : Faults) (now : ℕ) (r : Reader) (t : BankTransaction) (o : PaymentOrder)
    (gc : GrantContext) (s : Store) (z : Settled) (s' : Store)
    → settle down now r t o gc s ≡ ok (z, s')
    → Marked t s s' × MintsIfPaid z.is_paid s s'
settle-Marked down now r t o gc s z s' h = elim (settle_cases down now r t o gc s z s' h) [
  | inl (gc', _, _, p) ↦ ((_, _, p.ledger), inl (p.reported, p.pays.code, p.pays.codes_after))
  | inr w ↦ ((_, _, w.ledger), inr (w.reported, w.codes_kept))
]

set_txn-Marked :
    (down : Faults) (t : BankTransaction) (st : TxnStatus) (s : Store) (t' : BankTransaction)
    (s' : Store)
    → set_txn down t st none [] s ≡ ok (t', s')
    → Marked t s s' × (s'.license_codes ≡ s.license_codes)
unfolding set_txn
set_txn-Marked down t st s t' s' h = ((st, none, ground (arith, h)), ground (arith, h))

find_candidate-store :
    (down : Faults) (cs : List Text) (s : Store) (o : Option PaymentOrder) (s₁ : Store)
    → find_candidate down cs s ≡ ok (o, s₁)
    → s₁ ≡ s
unfolding find_candidate
find_candidate-store down [] s o s₁ h = ground (arith, h)
find_candidate-store down (c ∷ cs) s o s₁ h = ground (arith, h, find_candidate-store down cs s o s₁)

abbrev pub Placed : BankTransaction → Store → Outcome → Store → Type 0
Placed t s out s' = (out.duplicate ≡ false) × Marked t s s' × MintsIfPaid out.is_paid s s'

settle_found-Placed :
    (down : Faults) (now : ℕ) (r : Reader) (t : BankTransaction) (o : Option PaymentOrder)
    (s : Store) (out : Outcome) (s' : Store)
    → settle_found down now r t o s ≡ ok (out, s')
    → Placed t s out s'
settle_found-Placed down now r t none s out s' h =
    elim (Result-cases (set_txn down t unmatched none [] s)) [
      | inl (e, p) ↦ absurd (ground (arith, p, h))
      | inr ((t', s₁), p) ↦
          let m = set_txn-Marked down t unmatched s t' s₁ p in
          let same : s' ≡ s₁ = ground (arith, p, h) in
          (ground (arith, p, h), rw same m.0, inr (ground (arith, p, h), rw same m.1))
    ]
settle_found-Placed down now r t (some o) s out s' h =
    elim (Result-cases (settle down now r t o (grant_context payment_sepay (sepay_ref t) 0 []) s)) [
      | inl (e, p) ↦ absurd (ground (arith, p, h))
      | inr ((z, s₁), p) ↦
          let m = settle-Marked down now r t o _ s z s₁ p in
          let same : s' ≡ s₁ = ground (arith, p, h) in
          let reported : out.is_paid ≡ z.is_paid = ground (arith, p, h) in
          (ground (arith, p, h), rw same m.0, rw (same, reported) m.1)
    ]

pub place-Placed :
    (down : Faults) (now : ℕ) (r : Reader) (cfg : Option Config) (t : BankTransaction) (s : Store)
    (out : Outcome) (s' : Store)
    → place down now r cfg t s ≡ ok (out, s')
    → Placed t s out s'
unfolding place
place-Placed down now r cfg t s out s' h = elim (Bool-cases (is_incoming cfg t)) [
  | inr foreign ↦ elim (Result-cases (set_txn down t ignored none [] s)) [
    | inl (e, p) ↦ absurd (ground (arith, foreign, p, h))
    | inr ((t', s₁), p) ↦
        let m = set_txn-Marked down t ignored s t' s₁ p in
        let same : s' ≡ s₁ = ground (arith, foreign, p, h) in
        (
          ground (arith, foreign, p, h),
          rw same m.0,
          inr (ground (arith, foreign, p, h), rw same m.1),
        )
  ]
  | inl ours ↦
      elim (Result-cases (
        find_candidate down
          (order_code_candidates t.detected_code (t.content ++ b' ' ∷ t.description)) s)) [
            | inl (e, p) ↦ absurd (ground (arith, ours, p, h))
            | inr ((o, s₁), p) ↦
                let same = find_candidate-store down _ s o s₁ p in
                settle_found-Placed down now r t o s out s' (ground (arith, ours, p, same, h))
          ]
]
