-- ===== src/Payment/Sepay/Replay.antt =====
-- ApplySePay as a whole: what one delivery of a transfer does.
use koviobe.Base.{
  ℕ, suc, ◌≡◌, ◌≢◌, ◌⊎◌, inl, inr, true, false, Option, none, some, [], ◌∷◌, ◌==◌, find, ok, err,
  length, length-update_where, List, find_sound, find-count, Option-cases, arith, Bool-cases,
  find-update_where, ◌>>=◌, text_eq_iff,
}
use koviobe.Model.Errors.{Error, Faults, db_error}
use koviobe.Model.Payment.{PaymentOrder, BankTransaction, TxnStatus, unmatched}
use koviobe.Model.Config.{Config}
use koviobe.Model.Store.{Store, transaction}
use koviobe.Model.Rollback.{transaction-ok}
use koviobe.License.Code.{Reader}
use koviobe.Payment.Settle.{with_match}
use koviobe.Payment.Sepay.{
  Outcome, already_recorded, same_id, record_txn, place_new, same_transfer, apply_sepay,
  known_reference,
}
use koviobe.Payment.Sepay.Ledger.{Marked, MintsIfPaid, Placed, place-Placed}

same_id-with_match :
    (t r : BankTransaction) (st : TxnStatus) (order : Option PaymentOrder)
    → same_id t (with_match st order [] r) ≡ same_id t r
unfolding same_id with_match
same_id-with_match t r st order = ground arith

pub same_id_self :
    (t : BankTransaction) (id : ℕ)
    → same_id t (record t { id = id; match_status = unmatched }) ≡ true
unfolding same_id
same_id_self t id =
    ground
      (arith, text_eq_iff t.provider t.provider, text_eq_iff t.provider_txn_id t.provider_txn_id)

-- The row that recordTxn inserts.
abbrev pub inserted : BankTransaction → Store → BankTransaction
inserted t s = record t { id = s.next_txn; match_status = unmatched }

abbrev pub with_row : BankTransaction → Store → Store
with_row t s = record s { txns = inserted t s ∷ s.txns; next_txn = suc s.next_txn }

pub record_txn_cases :
    (down : Faults) (t : BankTransaction) (s : Store)
    → (record_txn down t s ≡ err db_error)
      ⊎ ((record_txn down t s ≡ ok (none, s)) × (find (same_id t) s.txns ≢ none))
      ⊎ ((record_txn down t s ≡ ok (some (inserted t s), with_row t s))
          × (find (same_id t) s.txns ≡ none))
unfolding record_txn
record_txn_cases down t s = ground arith

-- A transfer that the ledger has: under its own id, or under its bank reference, where it has one, for
-- the same amount into the same account.
pub data OnRecord (t : BankTransaction) (rows : List BankTransaction) : Type 0 where
  by_id :
      (r : BankTransaction)
      → find (same_id t) rows ≡ some r
      → r.provider ≡ t.provider
      → r.provider_txn_id ≡ t.provider_txn_id
      → OnRecord t rows
  by_reference :
      (r : BankTransaction)
      → find (same_transfer t) rows ≡ some r
      → t.reference_code ≢ []
      → r.provider ≡ t.provider
      → r.reference_code ≡ t.reference_code
      → r.amount_vnd ≡ t.amount_vnd
      → r.account_number ≡ t.account_number
      → OnRecord t rows

found-OnRecord :
    (t : BankTransaction) (rows : List BankTransaction)
    → find (same_id t) rows ≢ none
    → OnRecord t rows
unfolding same_id
found-OnRecord t rows there = elim (Option-cases (find (same_id t) rows)) [
  | inl e ↦ absurd (there e)
  | inr (r, e) ↦
      let q = find_sound (same_id t) rows r e in
      by_id r e (ground (arith, q, text_eq_iff r.provider t.provider))
        (ground (arith, q, text_eq_iff r.provider_txn_id t.provider_txn_id))
]

known_reference-OnRecord :
    (down : Faults) (t : BankTransaction) (s : Store)
    → known_reference down t s ≡ true
    → OnRecord t s.txns
unfolding known_reference same_transfer
known_reference-OnRecord down t s h =
    let (r, e) = find-count (same_transfer t) s.txns (ground (arith, h)) in
    let q = find_sound (same_transfer t) s.txns r e in
    by_reference r e (λ p. ground (arith, h, p))
      (ground (arith, q, text_eq_iff r.provider t.provider))
      (ground (arith, q, text_eq_iff r.reference_code t.reference_code)) (ground (arith, q))
      (ground (arith, q, text_eq_iff r.account_number t.account_number))

-- What one delivery did: nothing to a transfer on record, and otherwise the ledger has one row more,
-- which is the transfer's, and a code was minted exactly if an order was paid.
abbrev pub Applied : BankTransaction → Store → Outcome → Store → Type 0
Applied t s out s' =
    ((out ≡ already_recorded) × (s' ≡ s) × OnRecord t s.txns)
    ⊎ ((out.duplicate ≡ false)
        × (find (same_id t) s.txns ≡ none)
        × (find (same_id t) s'.txns ≢ none)
        × MintsIfPaid out.is_paid s s'
        × (length s'.txns ≡ suc (length s.txns)))

pub Marked-found :
    (t : BankTransaction) (s s' : Store)
    → Marked (inserted t s) (with_row t s) s'
    → find (same_id t) s'.txns ≢ none
unfolding find
Marked-found t s s' (st, order, e) lost =
    let kept =
      find-update_where (same_id t) (λ r. r.id == s.next_txn) (with_match st order [])
        (inserted t s ∷ s.txns) (λ x. same_id-with_match t x st order) (ground (arith, e, lost)) in
    ground (arith, kept, same_id_self t s.next_txn)

Marked-length :
    (t : BankTransaction) (s s' : Store) → Marked t s s' → length s'.txns ≡ length s.txns
Marked-length t s s' (st, order, e) =
    rw e (length-update_where (λ r. r.id == t.id) (with_match st order []) s.txns)

pub Placed-Applied :
    (t : BankTransaction) (s : Store) (out : Outcome) (s' : Store)
    → find (same_id t) s.txns ≡ none
    → Placed (inserted t s) (with_row t s) out s'
    → Applied t s out s'
Placed-Applied t s out s' new (fresh, m, mints) =
    inr (fresh, new, Marked-found t s s' m, mints, Marked-length (inserted t s) (with_row t s) s' m)

body-Applied :
    (down : Faults) (now : ℕ) (r : Reader) (cfg : Option Config) (t : BankTransaction) (s : Store)
    (out : Outcome) (s' : Store)
    → (record_txn down t >>= place_new down now r cfg) s ≡ ok (out, s')
    → Applied t s out s'
body-Applied down now r cfg t s out s' h = elim (record_txn_cases down t s) [
  | inl e ↦ absurd (ground (arith, e, h))
  | inr (inl (e, there)) ↦
      inl (ground (arith, e, h), ground (arith, e, h), found-OnRecord t s.txns there)
  | inr (inr (e, new)) ↦
      Placed-Applied t s out s' new
        (place-Placed down now r cfg (inserted t s) (with_row t s) out s' (ground (arith, e, h)))
]

-- A delivery of a transfer that returns without an error either changes nothing, and then the ledger
-- has the transfer, by its id or by its bank reference, amount and account; or adds one row, the
-- transfer's, and mints one code exactly if it reports an order paid.
pub apply_sepay-Applied :
    (down : Faults) (now : ℕ) (r : Reader) (cfg : Option Config) (t : BankTransaction) (s : Store)
    (out : Outcome) (s' : Store)
    → apply_sepay down now r cfg t s ≡ (ok out, s')
    → Applied t s out s'
unfolding apply_sepay
apply_sepay-Applied down now r cfg t s out s' h = elim (Bool-cases (known_reference down t s)) [
  | inl known ↦
      inl (
        ground (arith, known, h),
        ground (arith, known, h),
        known_reference-OnRecord down t s known,
      )
  | inr new ↦ body-Applied down now r cfg t s out s' (
      transaction-ok down (record_txn down t >>= place_new down now r cfg) s out s'
        (ground (arith, new, h)))
]

-- A delivery that returns an error leaves every table as it was.
pub apply_sepay_err :
    (down : Faults) (now : ℕ) (r : Reader) (cfg : Option Config) (t : BankTransaction) (s : Store)
    (e : Error) (s' : Store)
    → apply_sepay down now r cfg t s ≡ (err e, s')
    → s' ≡ s
unfolding apply_sepay transaction
apply_sepay_err down now r cfg t s e s' h = ground (arith, h)

-- A transfer that is on record under its id is not applied.
pub recorded-replay :
    (down : Faults) (now : ℕ) (r : Reader) (cfg : Option Config) (t : BankTransaction) (s : Store)
    → find (same_id t) s.txns ≢ none
    → (apply_sepay down now r cfg t s ≡ (ok already_recorded, s))
      ⊎ (apply_sepay down now r cfg t s ≡ (err db_error, s))
unfolding apply_sepay transaction
recorded-replay down now r cfg t s there = elim (record_txn_cases down t s) [
  | inl e ↦ ground (arith, e)
  | inr (inl (e, _)) ↦ ground (arith, e)
  | inr (inr (_, new)) ↦ absurd (there new)
]
