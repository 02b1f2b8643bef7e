-- ===== src/Payment/Settle.antt =====
-- internal/pkg/payment/order.go (MarkPaidTx) and sepay.go (settle, review, setTxn): what money that
-- was found for an order does to it. The rows that Go mutates through pointers are returned.
pub mod Cases
pub mod Total
use koviobe.Base.{
  ℕ, ◌+◌, Text, Bool, true, false, ◌&&◌, not, Option, none, some, List, [], ◌∷◌, ◌++◌, codes, ◌==◌,
  if◌then◌else◌, is_empty, trim_space, update_where, add_int, ◌>>=◌, ◌>>◌, return, fail, modify,
  or_fail, ok, err,
}
use koviobe.Model.Errors.{Error, Faults, save_order, update_txn, random_failed}
use koviobe.Model.License.{LicenseCode, GrantContext}
use koviobe.Model.Payment.{
  PaymentOrder, OrderStatus, ReviewReason, BankTransaction, TxnStatus, pending, paid, expired,
  cancelled, no_reason, late_payment,
}
use koviobe.Model.Store.{Store, Db, stmt}
use koviobe.License.Code.{Reader, GenerateOptions, generate_codes}
use koviobe.Payment.Clip.{clip}

-- tx.Save(&o): every column of the row with the order's id.
unfoldable pub save : Faults → PaymentOrder → Db (Unit {0})
save down o = do
  stmt down (save_order o.id)
  modify (λ s. record s { orders = update_where (λ r. r.id == o.id) (λ _. o) s.orders })

unfoldable pub order_note : Text → Text → Text
order_note code note =
    clip
      (if is_empty note
        then codes "QR order " ++ code
        else (codes "QR order " ++ code) ++ codes " — " ++ note)
      255

-- The options under which a payment mints its code: one code, for one use.
abbrev pub order_code_options : PaymentOrder → ℕ → GrantContext → GenerateOptions
order_code_options o paid_amount gc = record {
  plan_id = o.plan_id;
  count = 1;
  duration_days = o.duration_days;
  max_uses = 1;
  expires_at = none;
  batch = codes "order:" ++ o.order_code;
  note = order_note o.order_code gc.note;
  amount_vnd = paid_amount;
  external_ref = gc.external_ref;
  created_by = gc.actor_user_id;
}

-- The order once it is paid with `code`.
abbrev pub paid_order : PaymentOrder → ℕ → ℕ → GrantContext → Text → PaymentOrder
paid_order o now paid_amount gc code = record o {
  status = paid;
  review_reason = no_reason;
  paid_at = some now;
  paid_amount_vnd = paid_amount;
  external_ref = gc.external_ref;
  license_code = code;
  confirmed_by = if gc.actor_user_id == 0 then o.confirmed_by else some gc.actor_user_id;
  note = if is_empty gc.note then o.note else gc.note;
}

abbrev head_code : List LicenseCode → Option LicenseCode
head_code [] = none
head_code (c ∷ _) = some c

unfoldable pub mark_paid : Faults → ℕ → Reader → PaymentOrder → ℕ → GrantContext → Db PaymentOrder
mark_paid down now r o paid_amount gc = do
  minted ← generate_codes down r (order_code_options o paid_amount gc)
  code ← or_fail (head_code minted) random_failed
  let o' = paid_order o now paid_amount gc code.code
  save down o'
  return o'

-- The columns that setTxn writes.
unfoldable pub with_match :
    TxnStatus → Option PaymentOrder → Text → BankTransaction → BankTransaction
with_match status order note t =
    let t' : BankTransaction = elim order [
      | none ↦ record t { match_status = status }
      | some o ↦ record t { match_status = status; order_id = some o.id; order_code = o.order_code }
    ] in
    if is_empty note then t' else record t' { note = note }

unfoldable pub set_txn :
    Faults → BankTransaction → TxnStatus → Option PaymentOrder → Text → Db BankTransaction
unfolding with_match
set_txn down t status order note = do
  stmt down (update_txn t.id)
  modify (λ s. record s {
    txns = update_where (λ r. r.id == t.id) (with_match status order note) s.txns;
  })
  return (with_match status order note t)

abbrev pub review_status : ReviewReason → TxnStatus
review_status ReviewReason.amount_mismatch = TxnStatus.amount_mismatch
review_status _ = TxnStatus.needs_review

abbrev pub reviewed_order : BankTransaction → PaymentOrder → ReviewReason → PaymentOrder
reviewed_order t o reason = record o {
  status = OrderStatus.needs_review;
  review_reason = reason;
  paid_amount_vnd = add_int o.paid_amount_vnd t.amount_vnd;
}

-- What settle reports, and the rows as it leaves them.
pub record Settled : Type 0 where
  pub status : TxnStatus
  pub is_paid : Bool
  pub txn : BankTransaction
  pub order : PaymentOrder

unfoldable pub review : Faults → BankTransaction → PaymentOrder → ReviewReason → Db Settled
review down t o reason = do
  let o' = reviewed_order t o reason
  save down o'
  t' ← set_txn down t (review_status reason) (some o') []
  return (record { status = t'.match_status; is_paid = false; txn = t'; order = o' })

abbrev pub late_context : OrderStatus → GrantContext → GrantContext
late_context expired gc = record gc { note = trim_space (gc.note ++ codes " paid after QR expiry") }
late_context _ gc = gc

abbrev pub paid_status : GrantContext → TxnStatus
paid_status gc = if gc.actor_user_id == 0 then TxnStatus.matched else TxnStatus.attached

-- The part of settle below its switch: an exact amount for an order that is pending or expired.
unfoldable pub settle_exact :
    Faults → ℕ → Reader → BankTransaction → PaymentOrder → GrantContext → Db Settled
settle_exact down now r t o gc = do
  o' ← mark_paid down now r o t.amount_vnd gc
  t' ← set_txn down t (paid_status gc) (some o') []
  return (record { status = paid_status gc; is_paid = true; txn = t'; order = o' })

-- The switch, on the order's status and on whether the amount is exact.
abbrev settle_by :
    OrderStatus
    → Bool
    → Faults
    → ℕ
    → Reader
    → BankTransaction
    → PaymentOrder
    → GrantContext
    → Db Settled
settle_by paid _ down now r t o gc = do
  t' ← set_txn down t TxnStatus.duplicate_payment (some o) []
  return (record { status = TxnStatus.duplicate_payment; is_paid = false; txn = t'; order = o })
settle_by OrderStatus.needs_review _ down now r t o gc = review down t o o.review_reason
settle_by cancelled _ down now r t o gc = review down t o late_payment
settle_by pending false down now r t o gc = review down t o ReviewReason.amount_mismatch
settle_by expired false down now r t o gc = review down t o ReviewReason.amount_mismatch
settle_by pending true down now r t o gc = settle_exact down now r t o (late_context pending gc)
settle_by expired true down now r t o gc = settle_exact down now r t o (late_context expired gc)

unfoldable pub settle :
    Faults → ℕ → Reader → BankTransaction → PaymentOrder → GrantContext → Db Settled
settle down now r t o gc = settle_by o.status (t.amount_vnd == o.amount_vnd) down now r t o gc
