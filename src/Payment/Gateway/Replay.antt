-- ===== src/Payment/Gateway/Replay.antt =====
-- ApplyGatewayIPN as a whole: a notification that was applied is never applied again.
use koviobe.Base.{
  ℕ, ◌≡◌, ◌≢◌, ◌⊎◌, inl, inr, refl, Text, false, Option, none, some, List, [], ◌∷◌, ◌++◌, codes,
  trim_space, ◌==◌, find, find-update_where, update_where, ok, err, arith, Result-cases,
  Option-cases, Bool-cases, ◌>>=◌, is_empty,
}
use koviobe.Model.Errors.{Faults, db_error, find_order}
use koviobe.Model.Payment.{PaymentOrder, BankTransaction, TxnStatus, ignored, unmatched}
use koviobe.Model.Store.{Store, transaction}
use koviobe.Model.Rollback.{transaction-ok}
use koviobe.Model.License.{payment_gateway}
use koviobe.License.Code.{Reader}
use koviobe.Payment.Clip.{clip}
use koviobe.Payment.Settle.{settle, set_txn, save, with_match}
use koviobe.Payment.Sepay.{Outcome, already_recorded, same_id, record_txn, grant_context, order_is}
use koviobe.Payment.Sepay.Ledger.{settle-Marked}
use koviobe.Payment.Sepay.Replay.{inserted, with_row, record_txn_cases, same_id_self}
use koviobe.Payment.Gateway.{
  GatewayIpn, ledger_row, is_order_paid, is_void, paid_problem, is_misrouted, settle_invoice,
  place_ipn, place_new_ipn, find_invoice, apply_gateway_ipn, misrouted_order, gateway_ref,
}

-- The row of a notification is written once more, with what became of it.
abbrev pub Noted : BankTransaction → Store → Store → Type 0
Noted t s s' =
    (st : TxnStatus) × (order : Option PaymentOrder) × (note : Text) × (s'.txns
      ≡ update_where (λ r. r.id == t.id) (with_match st order note) s.txns)

abbrev pub Filed : BankTransaction → Store → Outcome → Store → Type 0
Filed t s out s' = (out.duplicate ≡ false) × Noted t s s'

abbrev misrouted_note : GatewayIpn → Text
misrouted_note n =
    clip (codes "customer_id " ++ trim_space n.customer_id ++ codes " != order owner") 255

settle_invoice-Filed :
    (down : Faults) (now : ℕ) (r : Reader) (n : GatewayIpn) (t : BankTransaction) (o : PaymentOrder)
    (s : Store) (out : Outcome) (s' : Store)
    → settle_invoice down now r n t o s ≡ ok (out, s')
    → Filed t s out s'
unfolding settle_invoice save set_txn
settle_invoice-Filed down now r n t o s out s' h = elim (Bool-cases (is_misrouted n o)) [
  | inl bad ↦ (
    ground (arith, bad, h),
    (TxnStatus.needs_review, some (misrouted_order o), misrouted_note n, ground (arith, bad, h)),
  )
  | inr good ↦
      elim (Result-cases
        (settle down now r t o (grant_context payment_gateway (gateway_ref n) 0 []) s)) [
          | inl (e, q) ↦ absurd (ground (arith, good, q, h))
          | inr ((z, s₁), q) ↦
              let (st, order, e) = (settle-Marked down now r t o _ s z s₁ q).0 in
              (ground (arith, good, q, h), (st, order, [], ground (arith, good, q, h, e)))
        ]
]

-- Whatever a notification is, its row is written once more and no other row is.
place_ipn-Filed :
    (down : Faults) (now : ℕ) (r : Reader) (n : GatewayIpn) (t : BankTransaction)
    (order : Option PaymentOrder) (s : Store) (out : Outcome) (s' : Store)
    → place_ipn down now r n t order s ≡ ok (out, s')
    → Filed t s out s'
unfolding place_ipn set_txn
place_ipn-Filed down now r n t order s out s' h = elim (Bool-cases (is_order_paid n)) [
  | inl op ↦ elim (Bool-cases (is_empty (paid_problem n))) [
    | inr bad ↦ (
      ground (arith, op, bad, h),
      (ignored, none, clip (paid_problem n) 255, ground (arith, op, bad, h)),
    )
    | inl good ↦ elim (Option-cases order) [
      | inl e ↦
          (ground (arith, op, good, e, h), (unmatched, none, [], ground (arith, op, good, e, h)))
      | inr (o, e) ↦ settle_invoice-Filed down now r n t o s out s' (ground (arith, op, good, e, h))
    ]
  ]
  | inr other ↦ elim (Bool-cases (is_void n)) [
    | inl v ↦ (
      ground (arith, other, v, h),
      (
        TxnStatus.needs_review,
        order,
        codes "gateway reported TRANSACTION_VOID",
        ground (arith, other, v, h),
      ),
    )
    | inr v ↦ (
      ground (arith, other, v, h),
      (
        ignored,
        none,
        clip (codes "notification_type " ++ n.notification_type) 255,
        ground (arith, other, v, h),
      ),
    )
  ]
]

pub same_id-with_match :
    (t r : BankTransaction) (st : TxnStatus) (order : Option PaymentOrder) (note : Text)
    → same_id t (with_match st order note r) ≡ same_id t r
unfolding same_id with_match
same_id-with_match t r st order note = ground arith

Noted-found :
    (t : BankTransaction) (s s' : Store)
    → Noted (inserted t s) (with_row t s) s'
    → find (same_id t) s'.txns ≢ none
unfolding find
Noted-found t s s' (st, order, note, e) lost =
    let kept =
      find-update_where (same_id t) (λ r. r.id == s.next_txn) (with_match st order note)
        (inserted t s ∷ s.txns) (λ x. same_id-with_match t x st order note)
        (ground (arith, e, lost)) in
    ground (arith, kept, same_id_self t s.next_txn)

pub place_new_ipn-Filed :
    (down : Faults) (now : ℕ) (r : Reader) (n : GatewayIpn) (t : BankTransaction) (s : Store)
    (out : Outcome) (s' : Store)
    → place_new_ipn down now r n (some t) s ≡ ok (out, s')
    → Filed t s out s'
unfolding find_invoice
place_new_ipn-Filed down now r n t s out s' h =
    elim (Bool-cases (down (find_order t.detected_code))) [
      | inl q ↦ absurd (ground (arith, q, h))
      | inr q ↦
          place_ipn-Filed down now r n t (find (order_is t.detected_code) s.orders) s out s'
            (ground (arith, q, h))
    ]

-- A notification that is applied is on record afterwards.
applied-found :
    (down : Faults) (now : ℕ) (r : Reader) (when : Text → ℕ) (n : GatewayIpn) (raw : Text)
    (s : Store) (t : BankTransaction) (out : Outcome) (s' : Store)
    → ledger_row when n raw ≡ some t
    → apply_gateway_ipn down now r when n raw s ≡ (ok out, s')
    → out.duplicate ≡ false
    → find (same_id t) s'.txns ≢ none
unfolding apply_gateway_ipn
applied-found down now r when n raw s t out s' row h fresh = from_body (
    transaction-ok down (record_txn down t >>= place_new_ipn down now r n) s out s'
      (ground (arith, row, h)))
  where
    from_body :
        (record_txn down t >>= place_new_ipn down now r n) s ≡ ok (out, s')
        → find (same_id t) s'.txns ≢ none
    from_body b = elim (record_txn_cases down t s) [
      | inl e ↦ absurd (ground (arith, e, b))
      | inr (inl (e, _)) ↦ absurd (ground (arith, e, b, fresh))
      | inr (inr (e, _)) ↦
          Noted-found t s s'
            (place_new_ipn-Filed down now r n (inserted t s) (with_row t s) out s'
              (ground (arith, e, b))).1
    ]

-- The id of a row does not depend on the date or on the text of the body.
ledger_row-id :
    (when₁ when₂ : Text → ℕ) (n : GatewayIpn) (raw₁ raw₂ : Text) (t₁ : BankTransaction)
    → ledger_row when₁ n raw₁ ≡ some t₁
    → (t₂ : BankTransaction) × (ledger_row when₂ n raw₂ ≡ some t₂)
      × (t₂.provider ≡ t₁.provider)
      × (t₂.provider_txn_id ≡ t₁.provider_txn_id)
unfolding ledger_row
ledger_row-id when₁ when₂ n raw₁ raw₂ t₁ h = (
  record t₁ { transaction_date = when₂ (trim_space n.transaction_date); raw_payload = raw₂ },
  ground (arith, h),
  refl,
  refl,
)

find-same_id :
    (t₁ t₂ : BankTransaction) (rows : List BankTransaction)
    → t₂.provider ≡ t₁.provider
    → t₂.provider_txn_id ≡ t₁.provider_txn_id
    → find (same_id t₁) rows ≢ none
    → find (same_id t₂) rows ≢ none
unfolding same_id
find-same_id t₁ t₂ rows e f there = rw (e, f) there

-- A notification that is on record is not applied, however its date reads now.
pub recorded_ipn-replay :
    (down : Faults) (now : ℕ) (r : Reader) (when₁ when : Text → ℕ) (n : GatewayIpn)
    (raw₁ raw : Text) (t₁ : BankTransaction) (s : Store)
    → ledger_row when₁ n raw₁ ≡ some t₁
    → find (same_id t₁) s.txns ≢ none
    → (apply_gateway_ipn down now r when n raw s ≡ (ok already_recorded, s))
      ⊎ (apply_gateway_ipn down now r when n raw s ≡ (err db_error, s))
unfolding apply_gateway_ipn transaction
recorded_ipn-replay down now r when₁ when n raw₁ raw t₁ s e₁ there₁ =
    let (t₂, e, same_provider, same_key) = ledger_row-id when₁ when n raw₁ raw t₁ e₁ in
    let there = find-same_id t₁ t₂ s.txns same_provider same_key there₁ in
    elim (record_txn_cases down t₂ s) [
      | inl q ↦ ground (arith, e, q)
      | inr (inl (q, _)) ↦ ground (arith, e, q)
      | inr (inr (_, new)) ↦ absurd (there new)
    ]

-- A notification that was applied has a row, and the ledger has it.
pub applied-row :
    (down : Faults) (now : ℕ) (r : Reader) (when : Text → ℕ) (n : GatewayIpn) (raw : Text)
    (s : Store) (out : Outcome) (s' : Store)
    → apply_gateway_ipn down now r when n raw s ≡ (ok out, s')
    → out.duplicate ≡ false
    → (t : BankTransaction) × (ledger_row when n raw ≡ some t) × (find (same_id t) s'.txns ≢ none)
unfolding apply_gateway_ipn
applied-row down now r when n raw s out s' h fresh = elim (Option-cases (ledger_row when n raw)) [
  | inl e ↦ absurd (ground (arith, e, h))
  | inr (t, e) ↦ (t, e, applied-found down now r when n raw s t out s' e h fresh)
]
