-- ===== src/Payment/Gateway/Effect.antt =====
-- What a notification does to orders and codes, also to an order that is paid.
use koviobe.Base.{
  ℕ, ◌≡◌, inl, inr, refl, Text, true, false, Option, some, [], ◌∷◌, ◌==◌, update_where, ok,
  is_empty, trim_space, arith, Result-cases, Option-cases, Bool-cases, codes, upper, find,
  to_decimal,
}
use koviobe.Model.Errors.{Faults}
use koviobe.Model.License.{LicenseCode, payment_gateway, payment_manual}
use koviobe.Model.Payment.{PaymentOrder, BankTransaction, OrderStatus, customer_mismatch}
use koviobe.Payment.Clip.{clip}
use koviobe.Model.Store.{Store, transaction}
use koviobe.License.Code.{Reader}
use koviobe.Payment.Settle.{settle, set_txn, save}
use koviobe.Payment.Settle.Cases.{IsPayable, Pays, mark_paid-Pays}
use koviobe.Payment.Sepay.{Outcome, grant_context, lock_order, order_is}
use koviobe.Payment.Sepay.Ledger.{settle_cases}
use koviobe.Payment.Orders.{ConfirmInput, admin_confirm}
use koviobe.Payment.Gateway.{
  GatewayIpn, paid_problem, is_order_paid, place_ipn, settle_invoice, is_misrouted, misrouted_order,
  gateway_ref,
}
use koviobe.Payment.Gateway.Ipn.{IsMoney, paid_problem_iff, Allowed, Amounts}

-- Why an order was paid by a notification.
pub record Earned (n : GatewayIpn) (t : BankTransaction) (order : Option PaymentOrder)
    (s s' : Store) : Type 0 where
  pub order_paid : is_order_paid n ≡ true
  pub money : IsMoney n
  pub invoice : PaymentOrder
  pub found : order ≡ some invoice
  pub owner : is_misrouted n invoice ≡ false
  pub exact : t.amount_vnd ≡ invoice.amount_vnd
  pub payable : IsPayable invoice
  pub code : LicenseCode
  pub minted : s'.license_codes ≡ code ∷ s.license_codes

is_empty→nil : (t : Text) → is_empty t ≡ true → t ≡ []
is_empty→nil [] h = refl
is_empty→nil (c ∷ t) h = cc

settle_invoice-Earned :
    (down : Faults) (now : ℕ) (r : Reader) (n : GatewayIpn) (t : BankTransaction) (o : PaymentOrder)
    (s : Store) (out : Outcome) (s' : Store)
    → settle_invoice down now r n t o s ≡ ok (out, s')
    → out.is_paid ≡ true
    → is_order_paid n ≡ true
    → paid_problem n ≡ []
    → Earned n t (some o) s s'
unfolding settle_invoice save set_txn
settle_invoice-Earned down now r n t o s out s' h p op why = elim (Bool-cases (is_misrouted n o)) [
  | inl bad ↦ absurd (ground (arith, bad, h, p))
  | inr good ↦
      elim (Result-cases
        (settle down now r t o (grant_context payment_gateway (gateway_ref n) 0 []) s)) [
          | inl (e, q) ↦ absurd (ground (arith, good, q, h))
          | inr ((z, s₁), q) ↦ elim (settle_cases down now r t o _ s z s₁ q) [
            | inr w ↦ absurd (ground (arith, good, q, h, p, w.reported))
            | inl (gc', e, pay, v) ↦ record {
              order_paid = op;
              money = (paid_problem_iff n).0 why;
              invoice = o;
              found = refl;
              owner = good;
              exact = e;
              payable = pay;
              code = v.pays.code;
              minted = ground (arith, good, q, h, v.pays.codes_after);
            }
          ]
        ]
]

-- Why a recorded notification paid the order that was looked up for it.
pub place_ipn-Earned :
    (down : Faults) (now : ℕ) (r : Reader) (n : GatewayIpn) (t : BankTransaction)
    (order : Option PaymentOrder) (s : Store) (out : Outcome) (s' : Store)
    → place_ipn down now r n t order s ≡ ok (out, s')
    → out.is_paid ≡ true
    → Earned n t order s s'
unfolding place_ipn set_txn
place_ipn-Earned down now r n t order s out s' h p = elim (Bool-cases (is_order_paid n)) [
  | inr other ↦ absurd (ground (arith, other, h, p))
  | inl op ↦ elim (Bool-cases (is_empty (paid_problem n))) [
    | inr bad ↦ absurd (ground (arith, op, bad, h, p))
    | inl good ↦ elim (Option-cases order) [
      | inl e ↦ absurd (ground (arith, op, good, e, h, p))
      | inr (o, e) ↦ rw e (
          settle_invoice-Earned down now r n t o s out s' (ground (arith, op, good, e, h)) p op
            (is_empty→nil (paid_problem n) good))
    ]
  ]
]

settle_invoice-misrouted :
    (down : Faults) (now : ℕ) (r : Reader) (n : GatewayIpn) (t : BankTransaction) (o : PaymentOrder)
    (s : Store) (out : Outcome) (s' : Store)
    → is_misrouted n o ≡ true
    → settle_invoice down now r n t o s ≡ ok (out, s')
    → (s'.orders ≡ update_where (λ r. r.id == o.id) (λ _. misrouted_order o) s.orders)
      × (s'.license_codes ≡ s.license_codes)
unfolding settle_invoice save set_txn
settle_invoice-misrouted down now r n t o s out s' bad h =
    (ground (arith, bad, h), ground (arith, bad, h))

admin_confirm-Pays :
    (down : Faults) (now : ℕ) (r : Reader) (raw : Text) (i : ConfirmInput) (s : Store)
    (o o' : PaymentOrder) (s' : Store)
    → lock_order down raw s ≡ ok (o, s)
    → admin_confirm down now r raw i s ≡ (ok o', s')
    → Pays now i.amount_vnd o
        (grant_context payment_manual
          (trim_space i.external_ref)
          i.actor_user_id
          (trim_space i.note))
        s
        o'
        s'
unfolding admin_confirm transaction
admin_confirm-Pays down now r raw i s o o' s' locked h =
    mark_paid-Pays down now r o i.amount_vnd _ s o' s' (ground (arith, locked, h))

-- A notification with another buyer's id takes an order to review whatever its status, paid ones
-- too, and changes nothing else of it, so it keeps its code; confirming it afterwards mints another
-- code, which takes the first one's place on the order.
pub misrouted_twice :
    (down₁ down₂ : Faults) (now₁ now₂ : ℕ) (r₁ r₂ : Reader) (n : GatewayIpn) (t : BankTransaction)
    (o o' : PaymentOrder) (s s₁ s₂ : Store) (out : Outcome) (raw : Text) (i : ConfirmInput)
    → is_misrouted n o ≡ true
    → settle_invoice down₁ now₁ r₁ n t o s ≡ ok (out, s₁)
    → lock_order down₂ raw s₁ ≡ ok (misrouted_order o, s₁)
    → admin_confirm down₂ now₂ r₂ raw i s₁ ≡ (ok o', s₂)
    → (s₁.orders
        ≡ update_where
            (λ r. r.id == o.id)
            (λ _. record o { status = OrderStatus.needs_review; review_reason = customer_mismatch })
            s.orders)
      × (s₁.license_codes ≡ s.license_codes)
      × (o'.id ≡ o.id)
      × ((c : LicenseCode) × (s₂.license_codes ≡ c ∷ s.license_codes) × (o'.license_code ≡ c.code))
misrouted_twice down₁ down₂ now₁ now₂ r₁ r₂ n t o o' s s₁ s₂ out raw i bad first locked second =
    let m = settle_invoice-misrouted down₁ now₁ r₁ n t o s out s₁ bad first in
    let v = admin_confirm-Pays down₂ now₂ r₂ raw i s₁ (misrouted_order o) o' s₂ locked second in
    (
      m.0,
      m.1,
      ground (arith, v.order),
      (v.code, ground (arith, v.codes_after, m.1), ground (arith, v.order)),
    )

-- Why a notification paid an order: it is a payment of money; the order is one of the table, with the
-- notification's invoice number in capitals as its code; it was payable, of exactly the amount, and
-- the notification names no buyer or the order's.
pub record PaidBy (n : GatewayIpn) (s s' : Store) : Type 0 where
  pub order_paid : n.notification_type ≡ codes "ORDER_PAID"
  pub money : IsMoney n
  pub invoice : PaymentOrder
  pub listed :
      find (order_is (clip (upper (trim_space n.order_invoice_number)) 32)) s.orders ≡ some invoice
  pub named : invoice.order_code ≡ clip (upper (trim_space n.order_invoice_number)) 32
  pub buyer : Allowed (trim_space n.customer_id) (to_decimal invoice.user_id)
  pub exact : Amounts n invoice.amount_vnd
  pub payable : IsPayable invoice
  pub code : LicenseCode
  pub minted : s'.license_codes ≡ code ∷ s.license_codes
