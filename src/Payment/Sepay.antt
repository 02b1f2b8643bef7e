-- ===== src/Payment/Sepay.antt =====
-- internal/pkg/payment/sepay.go: recording a bank transfer, and what an admin does with one.
-- `cfg` is config.AppConfig, `now` the clock, `r` the random reader, `down` the failing statements.
pub mod Ledger
pub mod Replay
use koviobe.Base.{
  ℕ, suc, Text, Bool, true, false, ◌&&◌, ◌||◌, not, Option, none, some, List, [], ◌∷◌, ◌++◌, codes,
  ◌==◌, ltb, if◌then◌else◌, is_empty, upper, text_eq, trim_space, find, count, update_where, Result,
  ok, err, ◌>>=◌, ◌>>◌, return, fail, guard, gets, modify, or_fail,
}
use koviobe.Model.Errors.{
  Error, Faults, insert_txn, find_order, count_reference, find_txn, mark_txn, db_error,
  txn_note_missing, txn_not_found, txn_not_open, order_not_found,
}
use koviobe.Model.License.{GrantContext, Source, payment_sepay, payment_manual}
use koviobe.Model.Payment.{
  PaymentOrder, BankTransaction, TxnStatus, unmatched, ignored, dismissed, duplicate_payment,
}
use koviobe.Model.Config.{Config}
use koviobe.Model.Store.{Store, Db, stmt, transaction}
use koviobe.License.Code.{Reader}
use koviobe.Payment.Clip.{clip}
use koviobe.Payment.Code.{order_code_candidates}
use koviobe.Payment.Settle.{settle, set_txn, Settled}

-- What applying a transaction did; `status` is empty where the transfer was on record already.
pub record Outcome : Type 0 where
  pub duplicate : Bool
  pub status : Option TxnStatus
  pub order : Option PaymentOrder
  pub is_paid : Bool

abbrev pub already_recorded : Outcome
already_recorded = record { duplicate = true; status = none; order = none; is_paid = false }

abbrev pub only_status : TxnStatus → Outcome
only_status st = record { duplicate = false; status = some st; order = none; is_paid = false }

abbrev pub of_settled : Settled → Outcome
of_settled z = record {
  duplicate = false;
  status = some z.status;
  order = some z.order;
  is_paid = z.is_paid;
}

unfoldable pub needs_human : Outcome → Bool
needs_human out = elim out.status [
  | none ↦ false
  | some TxnStatus.unmatched ↦ true
  | some TxnStatus.amount_mismatch ↦ true
  | some TxnStatus.duplicate_payment ↦ true
  | some TxnStatus.needs_review ↦ true
  | some _ ↦ false
]

-- The same bank reference for the same amount into the same account is in the ledger.
unfoldable pub same_transfer : BankTransaction → BankTransaction → Bool
same_transfer t r =
    text_eq r.provider t.provider
    && text_eq r.reference_code t.reference_code
    && r.amount_vnd == t.amount_vnd
    && text_eq r.account_number t.account_number

-- A count that fails reads as none.
unfoldable pub known_reference : Faults → BankTransaction → Store → Bool
known_reference down t s =
    not (is_empty t.reference_code)
    && not (down count_reference)
    && ltb 0 (count (same_transfer t) s.txns)

-- The unique index on (provider, provider_txn_id).
unfoldable pub same_id : BankTransaction → BankTransaction → Bool
same_id t r = text_eq r.provider t.provider && text_eq r.provider_txn_id t.provider_txn_id

-- INSERT … ON CONFLICT DO NOTHING: the row with its id, or none.
unfoldable pub record_txn : Faults → BankTransaction → Db (Option BankTransaction)
record_txn down t = do
  stmt down insert_txn
  known ← gets (λ s. find (same_id t) s.txns)
  n ← gets (λ s. s.next_txn)
  let row = record t { id = n; match_status = unmatched }
  elim known [
    | some _ ↦ return none
    | none ↦
        modify (λ s. record s { txns = row ∷ s.txns; next_txn = suc s.next_txn })
        >> return (some row)
  ]

unfoldable pub order_is : Text → PaymentOrder → Bool
order_is code o = text_eq o.order_code code

-- The loop over the candidates: the first that some order has.
unfoldable pub find_candidate : Faults → List Text → Db (Option PaymentOrder)
find_candidate down [] s = ok (none, s)
find_candidate down (c ∷ cs) s =
    let rest = find_candidate down cs s in
    if down (find_order c)
    then err db_error
    else elim (find (order_is c) s.orders) [ some o ↦ ok (some o, s) | none ↦ rest ]

unfoldable pub sepay_ref : BankTransaction → Text
sepay_ref t =
    clip
      (if is_empty t.reference_code
        then codes "sepay:" ++ t.provider_txn_id
        else (codes "sepay:" ++ t.provider_txn_id) ++ codes " ref:" ++ t.reference_code)
      120

abbrev pub grant_context : Source → Text → ℕ → Text → GrantContext
grant_context source ref actor note = record {
  source = source;
  source_ref = [];
  amount_vnd = 0;
  external_ref = ref;
  actor_user_id = actor;
  note = note;
  ip_address = [];
}

abbrev pub our_account : Option Config → Text
our_account none = []
our_account (some c) = c.payment_bank_account

abbrev pub is_incoming : Option Config → BankTransaction → Bool
is_incoming cfg t =
    text_eq t.transfer_type (codes "in")
    && not (is_empty (our_account cfg))
    && text_eq t.account_number (our_account cfg)

-- A recorded transfer into our account, once the order that it names is looked up.
abbrev pub settle_found : Faults → ℕ → Reader → BankTransaction → Option PaymentOrder → Db Outcome
settle_found down now r t none =
    set_txn down t unmatched none [] >>= λ _. return (only_status unmatched)
settle_found down now r t (some o) = do
  z ← settle down now r t o (grant_context payment_sepay (sepay_ref t) 0 [])
  return (of_settled z)

-- The part of ApplySePay below the insert.
unfoldable pub place : Faults → ℕ → Reader → Option Config → BankTransaction → Db Outcome
place down now r cfg t =
    if is_incoming cfg t
    then (find_candidate down
          (order_code_candidates t.detected_code (t.content ++ b' ' ∷ t.description))
        >>= settle_found down now r t)
    else (set_txn down t ignored none [] >>= λ _. return (only_status ignored))

abbrev pub place_new : Faults → ℕ → Reader → Option Config → Option BankTransaction → Db Outcome
place_new down now r cfg none = return already_recorded
place_new down now r cfg (some t) = place down now r cfg t

unfoldable pub apply_sepay :
    Faults → ℕ → Reader → Option Config → BankTransaction → Store → Result Error Outcome × Store
apply_sepay down now r cfg t s =
    let body = transaction down (record_txn down t >>= place_new down now r cfg) s in
    if known_reference down t s then (ok already_recorded, s) else body

abbrev pub is_unmatched : TxnStatus → Bool
is_unmatched TxnStatus.unmatched = true
is_unmatched _ = false

abbrev pub is_dismissable : TxnStatus → Bool
is_dismissable TxnStatus.unmatched = true
is_dismissable TxnStatus.duplicate_payment = true
is_dismissable _ = false

abbrev pub txn_has_id : ℕ → BankTransaction → Bool
txn_has_id id t = t.id == id

-- The row that an admin acts on, locked.
unfoldable pub lock_txn : Faults → ℕ → Db BankTransaction
lock_txn down id = do
  row ← gets (λ s. find (txn_has_id id) s.txns)
  guard (not (down (find_txn id))) txn_not_found
  or_fail row txn_not_found

unfoldable pub lock_order : Faults → Text → Db PaymentOrder
lock_order down raw = do
  let code = upper (trim_space raw)
  row ← gets (λ s. find (order_is code) s.orders)
  guard (not (down (find_order code))) order_not_found
  or_fail row order_not_found

unfoldable pub attach_transaction :
    Faults → ℕ → Reader → ℕ → Text → ℕ → Text → Store → Result Error Outcome × Store
attach_transaction down now r id order_code actor raw_note s =
    let note = trim_space raw_note in
    if is_empty note
    then (err txn_note_missing, s)
    else transaction down
        (do
          t ← lock_txn down id
          guard (is_unmatched t.match_status) txn_not_open
          o ← lock_order down order_code
          stmt down (mark_txn id)
          let t' = record t { handled_by = some actor; note = clip note 255 }
          modify (λ s. record s {
            txns =
                update_where (txn_has_id id)
                  (λ r. record r { handled_by = some actor; note = clip note 255 }) s.txns;
          })
          z ← settle down now r t' o (grant_context payment_manual (sepay_ref t') actor note)
          return (of_settled z))
        s

unfoldable pub dismiss_transaction : Faults → ℕ → ℕ → Text → Store → Result Error (Unit {0}) × Store
dismiss_transaction down id actor raw_note s =
    let note = trim_space raw_note in
    if is_empty note
    then (err txn_note_missing, s)
    else transaction down
        (do
          t ← lock_txn down id
          guard (is_dismissable t.match_status) txn_not_open
          stmt down (mark_txn id)
          modify (λ s. record s {
            txns =
                update_where (txn_has_id id)
                  (λ r. record r {
                    match_status = dismissed;
                    handled_by = some actor;
                    note = clip note 255;
                  })
                  s.txns;
          }))
        s
