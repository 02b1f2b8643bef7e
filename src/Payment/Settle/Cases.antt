-- ===== src/Payment/Settle/Cases.antt =====
-- What `settle` and `MarkPaidTx` do, on every branch.
use koviobe.Base.{
  ℕ, ◌≡◌, ◌≢◌, refl, Text, true, false, Option, none, some, List, [], ◌∷◌, ◌==◌, ◌⊎◌, inl, inr,
  find, update_where, add_int, ok, ◌>>=◌, return, arith, Result-cases,
}
use koviobe.Model.Errors.{Faults}
use koviobe.Model.License.{LicenseCode, GrantContext}
use koviobe.Model.Payment.{
  PaymentOrder, OrderStatus, BankTransaction, TxnStatus, ReviewReason, late_payment, pending, paid,
  expired, cancelled, no_reason,
}
use koviobe.Model.Store.{Store}
use koviobe.License.Code.{Reader, code_is, generate_codes}
use koviobe.License.Code.Minting.{Carries, One, generate_codes-IsBatch, generate_codes-One}
use koviobe.Payment.Settle.{
  save, mark_paid, order_code_options, paid_order, set_txn, with_match, review, reviewed_order,
  settle, settle_exact, Settled, late_context, paid_status, review_status,
}

-- A paid order, column by column: it holds the code, the money and the time, and is the same order of
-- the same buyer.
pub record IsPaidWith (now amount : ℕ) (code : Text) (o o' : PaymentOrder) : Type 0 where
  pub status : o'.status ≡ paid
  pub reason : o'.review_reason ≡ no_reason
  pub license_code : o'.license_code ≡ code
  pub paid_at : o'.paid_at ≡ some now
  pub paid_amount_vnd : o'.paid_amount_vnd ≡ amount
  pub same : (o'.id ≡ o.id) × (o'.order_code ≡ o.order_code) × (o'.user_id ≡ o.user_id)

-- Paying an order mints one code for it, new among all codes, and writes both or neither.
pub record Pays (now amount : ℕ) (o : PaymentOrder) (gc : GrantContext) (s : Store)
    (o' : PaymentOrder) (s' : Store) : Type 0 where
  pub code : LicenseCode
  pub carries : Carries (order_code_options o amount gc) code
  pub fresh : find (code_is code.code) s.license_codes ≡ none
  pub order : o' ≡ paid_order o now amount gc code.code
  pub is_paid : IsPaidWith now amount code.code o o'
  pub codes_after : s'.license_codes ≡ code ∷ s.license_codes
  pub orders_after : s'.orders ≡ update_where (λ r. r.id == o.id) (λ _. o') s.orders

IsPaidWith-paid_order :
    (now amount : ℕ) (o : PaymentOrder) (gc : GrantContext) (code : Text) (o' : PaymentOrder)
    → o' ≡ paid_order o now amount gc code
    → IsPaidWith now amount code o o'
IsPaidWith-paid_order now amount o gc code o' e = record {
  status = ground (arith, e);
  reason = ground (arith, e);
  license_code = ground (arith, e);
  paid_at = ground (arith, e);
  paid_amount_vnd = ground (arith, e);
  same = (ground (arith, e), ground (arith, e), ground (arith, e));
}

pub mark_paid-Pays :
    (down : Faults) (now : ℕ) (r : Reader) (o : PaymentOrder) (amount : ℕ) (gc : GrantContext)
    (s : Store) (o' : PaymentOrder) (s' : Store)
    → mark_paid down now r o amount gc s ≡ ok (o', s')
    → Pays now amount o gc s o' s'
unfolding mark_paid save
mark_paid-Pays down now r o amount gc s o' s' h =
    elim (Result-cases (generate_codes down r (order_code_options o amount gc) s)) [
      | inl (e, p) ↦ absurd (ground (arith, p))
      | inr ((cs, s₁), p) ↦ step cs s₁ p (generate_codes-One down r _ s cs s₁ refl p)
    ]
  where
    step :
        (cs : List LicenseCode) (s₁ : Store)
        → generate_codes down r (order_code_options o amount gc) s ≡ ok (cs, s₁)
        → One (order_code_options o amount gc) s cs s₁
        → Pays now amount o gc s o' s'
    step cs s₁ p (c, one, carried, table, new) = record {
      code = c;
      carries = carried;
      fresh = new;
      order = ground (arith, h, p, one, table);
      is_paid = IsPaidWith-paid_order now amount o gc c.code o' (ground (arith, h, p, one, table));
      codes_after = ground (arith, h, p, one, table);
      orders_after = ground (arith, h, p, one, table);
    }

-- An order that an exact amount still pays: a QR that is open, or one that has run out.
abbrev pub IsPayable : PaymentOrder → Type 0
IsPayable o = (o.status ≡ pending) ⊎ (o.status ≡ expired)

generate_codes-txns :
    (down : Faults) (r : Reader) (o : PaymentOrder) (amount : ℕ) (gc : GrantContext) (s : Store)
    (cs : List LicenseCode) (s₁ : Store)
    → generate_codes down r (order_code_options o amount gc) s ≡ ok (cs, s₁)
    → s₁.txns ≡ s.txns
generate_codes-txns down r o amount gc s cs s₁ p =
    ground (arith, (generate_codes-IsBatch down r _ s cs s₁ p).table)

mark_paid-txns :
    (down : Faults) (now : ℕ) (r : Reader) (o : PaymentOrder) (amount : ℕ) (gc : GrantContext)
    (s : Store) (o' : PaymentOrder) (s' : Store)
    → mark_paid down now r o amount gc s ≡ ok (o', s')
    → s'.txns ≡ s.txns
unfolding mark_paid save
mark_paid-txns down now r o amount gc s o' s' h =
    elim (Result-cases (generate_codes down r (order_code_options o amount gc) s)) [
      | inl (e, p) ↦ absurd (ground (arith, p))
      | inr ((cs, s₁), p) ↦ ground (arith, h, p, generate_codes-txns down r o amount gc s cs s₁ p)
    ]

-- The result of a payment: the order is paid and its code minted, and the transfer says so.
pub record Paid (now : ℕ) (t : BankTransaction) (o : PaymentOrder) (gc : GrantContext) (s : Store)
    (z : Settled) (s' : Store) : Type 0 where
  pub reported : z.is_paid ≡ true
  pub matched : z.status ≡ paid_status gc
  pub pays : Pays now t.amount_vnd o gc s z.order s'
  pub ledger :
      s'.txns
      ≡ update_where (λ r. r.id == t.id) (with_match (paid_status gc) (some z.order) []) s.txns
  pub row_says :
      (r : BankTransaction)
      → with_match (paid_status gc) (some z.order) [] r
        ≡ record r { match_status = z.status; order_id = some o.id; order_code = o.order_code }
  pub by_whom :
      ((gc.actor_user_id ≡ 0) × (z.status ≡ TxnStatus.matched))
      ⊎ ((gc.actor_user_id ≢ 0) × (z.status ≡ TxnStatus.attached))

by_actor :
    (gc : GrantContext)
    → ((gc.actor_user_id ≡ 0) × (paid_status gc ≡ TxnStatus.matched))
      ⊎ ((gc.actor_user_id ≢ 0) × (paid_status gc ≡ TxnStatus.attached))
by_actor gc = ground arith

with_match-paid :
    (st : TxnStatus) (o' o : PaymentOrder) (st' : TxnStatus) (r : BankTransaction)
    → o'.id ≡ o.id
    → o'.order_code ≡ o.order_code
    → st' ≡ st
    → with_match st (some o') [] r
      ≡ record r { match_status = st'; order_id = some o.id; order_code = o.order_code }
unfolding with_match
with_match-paid st o' o st' r same code e = ground (arith, same, code, e)

settle_exact-Paid :
    (down : Faults) (now : ℕ) (r : Reader) (t : BankTransaction) (o : PaymentOrder)
    (gc : GrantContext) (s : Store) (z : Settled) (s' : Store)
    → settle_exact down now r t o gc s ≡ ok (z, s')
    → Paid now t o gc s z s'
unfolding settle_exact set_txn
settle_exact-Paid down now r t o gc s z s' h =
    elim (Result-cases (mark_paid down now r o t.amount_vnd gc s)) [
      | inl (e, p) ↦ absurd (ground (arith, p))
      | inr ((o', s₁), p) ↦
          step o' s₁ p (mark_paid-Pays down now r o t.amount_vnd gc s o' s₁ p)
            (mark_paid-txns down now r o t.amount_vnd gc s o' s₁ p)
    ]
  where
    step :
        (o' : PaymentOrder) (s₁ : Store)
        → mark_paid down now r o t.amount_vnd gc s ≡ ok (o', s₁)
        → Pays now t.amount_vnd o gc s o' s₁
        → s₁.txns ≡ s.txns
        → Paid now t o gc s z s'
    step o' s₁ p v kept = record {
      reported = ground (arith, h, p);
      matched = ground (arith, h, p);
      pays = record {
        code = v.code;
        carries = v.carries;
        fresh = v.fresh;
        order = ground (arith, h, p);
        is_paid =
            IsPaidWith-paid_order now t.amount_vnd o gc v.code.code z.order (ground (arith, h, p));
        codes_after = ground (arith, h, p);
        orders_after = ground (arith, h, p);
      };
      ledger = ground (arith, h, p, kept);
      row_says = λ b.
          with_match-paid (paid_status gc) z.order o z.status b (ground (arith, h, p, v.order))
            (ground (arith, h, p, v.order)) (ground (arith, h, p));
      by_whom = rw (let e : z.status ≡ paid_status gc = ground (arith, h, p) in e) (by_actor gc);
    }

-- An exact transfer pays an order that is pending or expired: it mints one new code for the order,
-- writes the order as paid, with that code, the amount and the time, and links the transfer's row to
-- the order, as matched, or as attached where an admin acts.
pub settle_pays :
    (down : Faults) (now : ℕ) (r : Reader) (t : BankTransaction) (o : PaymentOrder)
    (gc : GrantContext) (s : Store) (z : Settled) (s' : Store)
    → t.amount_vnd ≡ o.amount_vnd
    → IsPayable o
    → settle down now r t o gc s ≡ ok (z, s')
    → Paid now t o (late_context o.status gc) s z s'
unfolding settle
settle_pays down now r t o gc s z s' exact (inl e) h =
    settle_exact-Paid down now r t o _ s z s' (ground (arith, e, exact))
settle_pays down now r t o gc s z s' exact (inr e) h =
    settle_exact-Paid down now r t o _ s z s' (ground (arith, e, exact))

-- What is left when no payment is made: no code is minted, and the order goes to review with the
-- money added to it, unless it was paid already.
pub record Withheld (t : BankTransaction) (o : PaymentOrder) (s : Store) (z : Settled) (s' : Store)
    : Type 0 where
  pub reported : z.is_paid ≡ false
  pub codes_kept : s'.license_codes ≡ s.license_codes
  pub left_or_reviewed :
      ((o.status ≡ paid) × (z.order ≡ o) × (s'.orders ≡ s.orders))
      ⊎ ((o.status ≢ paid)
          × (z.order.status ≡ OrderStatus.needs_review)
          × (z.order.paid_amount_vnd ≡ add_int o.paid_amount_vnd t.amount_vnd)
          × (z.order.license_code ≡ o.license_code)
          × (s'.orders ≡ update_where (λ r. r.id == o.id) (λ _. z.order) s.orders))
  pub ledger :
      s'.txns ≡ update_where (λ r. r.id == t.id) (with_match z.status (some z.order) []) s.txns

with_match-status :
    (st : TxnStatus) (order : Option PaymentOrder) (note : Text) (t : BankTransaction)
    → (with_match st order note t).match_status ≡ st
unfolding with_match
with_match-status st order note t = ground arith

review-Withheld :
    (down : Faults) (t : BankTransaction) (o : PaymentOrder) (reason : ReviewReason) (s : Store)
    (z : Settled) (s' : Store)
    → o.status ≢ paid
    → review down t o reason s ≡ ok (z, s')
    → Withheld t o s z s'
unfolding review save set_txn
review-Withheld down t o reason s z s' open_ h =
    let st = with_match-status (review_status reason) (some (reviewed_order t o reason)) [] t in
    record {
      reported = ground (arith, h);
      codes_kept = ground (arith, h);
      left_or_reviewed =
          inr (open_, ground (arith, h), ground (arith, h), ground (arith, h), ground (arith, h));
      ledger = ground (arith, h, st);
    }

duplicate-Withheld :
    (down : Faults) (t : BankTransaction) (o : PaymentOrder) (s : Store) (z : Settled) (s' : Store)
    → o.status ≡ paid
    → (set_txn down t TxnStatus.duplicate_payment (some o) [] >>= λ t'.
          return
            (record { status = TxnStatus.duplicate_payment; is_paid = false; txn = t'; order = o }))
        s
      ≡ ok (z, s')
    → Withheld t o s z s'
unfolding set_txn
duplicate-Withheld down t o s z s' e h = record {
  reported = ground (arith, h);
  codes_kept = ground (arith, h);
  left_or_reviewed = inl (e, ground (arith, h), ground (arith, h));
  ledger = ground (arith, h);
}

-- A transfer of another amount, or for an order that is paid, cancelled or under review, mints no
-- code: a paid order is left alone, and any other goes to review with the money added.
pub settle_withholds :
    (down : Faults) (now : ℕ) (r : Reader) (t : BankTransaction) (o : PaymentOrder)
    (gc : GrantContext) (s : Store) (z : Settled) (s' : Store)
    → (t.amount_vnd ≢ o.amount_vnd) ⊎ (¬ IsPayable o)
    → settle down now r t o gc s ≡ ok (z, s')
    → Withheld t o s z s'
unfolding settle
settle_withholds down now r t o gc s z s' off h = by_status o.status refl
  where
    inexact : IsPayable o → (t.amount_vnd == o.amount_vnd) ≡ false
    inexact p = elim off [ inl n ↦ ground (arith, n) | inr n ↦ absurd (n p) ]

    by_status : (st : OrderStatus) → o.status ≡ st → Withheld t o s z s'
    by_status paid e = duplicate-Withheld down t o s z s' e (ground (arith, e, h))
    by_status OrderStatus.needs_review e =
        review-Withheld down t o o.review_reason s z s' (λ p. cc) (ground (arith, e, h))
    by_status cancelled e =
        review-Withheld down t o late_payment s z s' (λ p. cc) (ground (arith, e, h))
    by_status pending e =
        review-Withheld down t o ReviewReason.amount_mismatch s z s' (λ p. cc)
          (ground (arith, e, inexact (inl e), h))
    by_status expired e =
        review-Withheld down t o ReviewReason.amount_mismatch s z s' (λ p. cc)
          (ground (arith, e, inexact (inr e), h))
