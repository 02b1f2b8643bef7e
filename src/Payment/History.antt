-- ===== src/Payment/History.antt =====
-- The ledger over time (internal/pkg/payment/sepay.go, gateway.go): what is on record stays there, through
-- every operation that writes the ledger, and so money is applied once.
use koviobe.Base.{
  ℕ, ◌≡◌, ◌≢◌, ◌⊎◌, inl, inr, refl, Text, Bool, false, Option, none, some, List, [], ◌==◌, find,
  update_where, find-update_where, ok, err, ◌>>=◌, arith, Result-cases, Option-cases, Bool-cases,
  trim_space,
}
use koviobe.Model.Errors.{Faults, db_error}
use koviobe.Model.License.{payment_manual}
use koviobe.Model.Payment.{BankTransaction, PaymentOrder, TxnStatus, dismissed}
use koviobe.Model.Config.{Config}
use koviobe.Model.Store.{Store, transaction}
use koviobe.Model.Rollback.{transaction-ok, transaction-cases}
use koviobe.License.Code.{Reader}
use koviobe.Payment.Clip.{clip}
use koviobe.Payment.Settle.{settle, with_match}
use koviobe.Payment.Sepay.{
  Outcome, already_recorded, same_id, record_txn, place_new, known_reference, apply_sepay, lock_txn,
  lock_order, attach_transaction, dismiss_transaction, grant_context, sepay_ref, txn_has_id,
}
use koviobe.Payment.Sepay.Ledger.{settle-Marked, place-Placed}
use koviobe.Payment.Sepay.Replay.{
  inserted, with_row, record_txn_cases, apply_sepay-Applied, recorded-replay,
}
use koviobe.Payment.Gateway.{GatewayIpn, ledger_row, place_new_ipn, apply_gateway_ipn}
use koviobe.Payment.Gateway.Replay.{
  same_id-with_match, place_new_ipn-Filed, recorded_ipn-replay, applied-row,
}

-- What befalls the ledger: a delivery, an admin who attaches or dismisses a transfer, a notification,
-- or something that leaves the ledger as it is.
pub data Step : Store → Store → Type 0 where
  delivers :
      (down : Faults) (now : ℕ) (r : Reader) (cfg : Option Config) (t : BankTransaction) (s : Store)
      → Step s (apply_sepay down now r cfg t s).1
  attaches :
      (down : Faults) (now : ℕ) (r : Reader) (id : ℕ) (code : Text) (actor : ℕ) (note : Text)
      (s : Store)
      → Step s (attach_transaction down now r id code actor note s).1
  dismisses :
      (down : Faults) (id actor : ℕ) (note : Text) (s : Store)
      → Step s (dismiss_transaction down id actor note s).1
  notifies :
      (down : Faults) (now : ℕ) (r : Reader) (when : Text → ℕ) (n : GatewayIpn) (raw : Text)
      (s : Store)
      → Step s (apply_gateway_ipn down now r when n raw s).1
  elsewhere : (s s' : Store) → s'.txns ≡ s.txns → Step s s'

pub data Later (s : Store) : Store → Type 0 where
  at_once : Later s s
  then_step : {t u : Store} → Later s t → Step t u → Later s u

-- A change of a row that keeps its id keeps what is found by an id.
changed-kept :
    (u : BankTransaction) (p : BankTransaction → Bool) (f : BankTransaction → BankTransaction)
    (rows rows' : List BankTransaction)
    → ((x : BankTransaction) → same_id u (f x) ≡ same_id u x)
    → rows' ≡ update_where p f rows
    → find (same_id u) rows ≢ none
    → find (same_id u) rows' ≢ none
changed-kept u p f rows rows' same e there lost =
    there (find-update_where (same_id u) p f rows same (ground (arith, e, lost)))

matched-kept :
    (u t : BankTransaction) (st : TxnStatus) (order : Option PaymentOrder) (note : Text)
    (s s' : Store)
    → s'.txns ≡ update_where (λ r. r.id == t.id) (with_match st order note) s.txns
    → find (same_id u) s.txns ≢ none
    → find (same_id u) s'.txns ≢ none
matched-kept u t st order note s s' e there =
    changed-kept u (λ r. r.id == t.id) (with_match st order note) s.txns s'.txns
      (λ x. same_id-with_match u x st order note) e there

with_row-kept :
    (u t : BankTransaction) (s : Store)
    → find (same_id u) s.txns ≢ none
    → find (same_id u) (with_row t s).txns ≢ none
unfolding find
with_row-kept u t s there lost = there (ground (arith, lost))

placed-kept :
    (u : BankTransaction) (down : Faults) (now : ℕ) (r : Reader) (cfg : Option Config)
    (t : BankTransaction) (s : Store) (out : Outcome) (s' : Store)
    → (record_txn down t >>= place_new down now r cfg) s ≡ ok (out, s')
    → find (same_id u) s.txns ≢ none
    → find (same_id u) s'.txns ≢ none
placed-kept u down now r cfg t s out s' h there = elim (record_txn_cases down t s) [
  | inl e ↦ absurd (ground (arith, e, h))
  | inr (inl (e, _)) ↦ let same : s' ≡ s = ground (arith, e, h) in rw same there
  | inr (inr (e, _)) ↦
      let (_, (st, order, m), _) =
        place-Placed down now r cfg (inserted t s) (with_row t s) out s' (ground (arith, e, h)) in
      matched-kept u (inserted t s) st order [] (with_row t s) s' m (with_row-kept u t s there)
]

delivery-kept :
    (u : BankTransaction) (down : Faults) (now : ℕ) (r : Reader) (cfg : Option Config)
    (t : BankTransaction) (s : Store)
    → find (same_id u) s.txns ≢ none
    → find (same_id u) (apply_sepay down now r cfg t s).1.txns ≢ none
unfolding apply_sepay
delivery-kept u down now r cfg t s there =
    let body = record_txn down t >>= place_new down now r cfg in
    elim (Bool-cases (known_reference down t s)) [
      | inl known ↦ rw (apply_sepay, known) there
      | inr new ↦ elim (transaction-cases down body s) [
        | inl (e, p) ↦ rw (apply_sepay, new, p) there
        | inr (out, s', p) ↦
            rw (apply_sepay, new, p)
              (placed-kept u down now r cfg t s out s' (transaction-ok down body s out s' p) there)
      ]
    ]

noted-kept :
    (u : BankTransaction) (down : Faults) (now : ℕ) (r : Reader) (n : GatewayIpn)
    (t : BankTransaction) (s : Store) (out : Outcome) (s' : Store)
    → (record_txn down t >>= place_new_ipn down now r n) s ≡ ok (out, s')
    → find (same_id u) s.txns ≢ none
    → find (same_id u) s'.txns ≢ none
noted-kept u down now r n t s out s' h there = elim (record_txn_cases down t s) [
  | inl e ↦ absurd (ground (arith, e, h))
  | inr (inl (e, _)) ↦ let same : s' ≡ s = ground (arith, e, h) in rw same there
  | inr (inr (e, _)) ↦
      let (_, (st, order, note, m)) =
        place_new_ipn-Filed down now r n (inserted t s) (with_row t s) out s'
          (ground (arith, e, h)) in
      matched-kept u (inserted t s) st order note (with_row t s) s' m (with_row-kept u t s there)
]

notice-kept :
    (u : BankTransaction) (down : Faults) (now : ℕ) (r : Reader) (when : Text → ℕ) (n : GatewayIpn)
    (raw : Text) (s : Store)
    → find (same_id u) s.txns ≢ none
    → find (same_id u) (apply_gateway_ipn down now r when n raw s).1.txns ≢ none
unfolding apply_gateway_ipn
notice-kept u down now r when n raw s there = elim (Option-cases (ledger_row when n raw)) [
  | inl e ↦ rw (apply_gateway_ipn, e) there
  | inr (t, e) ↦
      let body = record_txn down t >>= place_new_ipn down now r n in
      elim (transaction-cases down body s) [
        | inl (x, p) ↦ rw (apply_gateway_ipn, e, p) there
        | inr (out, s', p) ↦
            rw (apply_gateway_ipn, e, p)
              (noted-kept u down now r n t s out s' (transaction-ok down body s out s' p) there)
      ]
]

-- The rows that admins act on are read, and nothing is written by that.
lock_txn-store :
    (down : Faults) (id : ℕ) (s : Store) (t : BankTransaction) (s₁ : Store)
    → lock_txn down id s ≡ ok (t, s₁)
    → s₁ ≡ s
unfolding lock_txn
lock_txn-store down id s t s₁ h = ground (arith, h)

lock_order-store :
    (down : Faults) (raw : Text) (s : Store) (o : PaymentOrder) (s₁ : Store)
    → lock_order down raw s ≡ ok (o, s₁)
    → s₁ ≡ s
unfolding lock_order
lock_order-store down raw s o s₁ h = ground (arith, h)

abbrev handled : ℕ → Text → BankTransaction → BankTransaction
handled actor note r = record r { handled_by = some actor; note = clip note 255 }

abbrev put_aside : ℕ → Text → BankTransaction → BankTransaction
put_aside actor note r = record r {
  match_status = dismissed;
  handled_by = some actor;
  note = clip note 255;
}

same_id-handled :
    (u : BankTransaction) (actor : ℕ) (note : Text) (x : BankTransaction)
    → (same_id u (handled actor note x) ≡ same_id u x)
      × (same_id u (put_aside actor note x) ≡ same_id u x)
unfolding same_id
same_id-handled u actor note x = (ground arith, ground arith)

dismissal-kept :
    (u : BankTransaction) (down : Faults) (id actor : ℕ) (raw : Text) (s : Store)
    → find (same_id u) s.txns ≢ none
    → find (same_id u) (dismiss_transaction down id actor raw s).1.txns ≢ none
unfolding dismiss_transaction transaction
dismissal-kept u down id actor raw s there =
    let kept =
      changed-kept u (txn_has_id id) (put_aside actor (trim_space raw)) s.txns
        (update_where (txn_has_id id) (put_aside actor (trim_space raw)) s.txns)
        (λ x. (same_id-handled u actor (trim_space raw) x).1) refl there in
    elim (Result-cases (lock_txn down id s)) [
      | inl (e, p) ↦ λ lost. there (ground (arith, p, lost))
      | inr ((t, s₁), p) ↦
          let same = lock_txn-store down id s t s₁ p in
          λ lost. ground (arith, p, same, lost, kept, there)
    ]

attachment-kept :
    (u : BankTransaction) (down : Faults) (now : ℕ) (r : Reader) (id : ℕ) (code : Text) (actor : ℕ)
    (raw : Text) (s : Store)
    → find (same_id u) s.txns ≢ none
    → find (same_id u) (attach_transaction down now r id code actor raw s).1.txns ≢ none
unfolding attach_transaction transaction
attachment-kept u down now r id code actor raw s there =
    let note = trim_space raw in
    let s₂ = record s { txns = update_where (txn_has_id id) (handled actor note) s.txns } in
    let kept =
      changed-kept u (txn_has_id id) (handled actor note) s.txns s₂.txns
        (λ x. (same_id-handled u actor note x).0) refl there in
    elim (Result-cases (lock_txn down id s)) [
      | inl (e, p) ↦ λ lost. there (ground (arith, p, lost))
      | inr ((t, s₁), p) ↦
          let same = lock_txn-store down id s t s₁ p in
          elim (Result-cases (lock_order down code s)) [
            | inl (e, q) ↦ λ lost. there (ground (arith, p, same, q, lost))
            | inr ((o, s₃), q) ↦
                let same' = lock_order-store down code s o s₃ q in
                let t' = handled actor note t in
                let gc = grant_context payment_manual (sepay_ref t') actor note in
                elim (Result-cases (settle down now r t' o gc s₂)) [
                  | inl (e, k) ↦ λ lost. there (ground (arith, p, same, q, same', k, lost))
                  | inr ((z, s₄), k) ↦
                      let (st, order, m) = (settle-Marked down now r t' o gc s₂ z s₄ k).0 in
                      let kept' = matched-kept u t' st order [] s₂ s₄ m kept in
                      λ lost. ground (arith, p, same, q, same', k, kept', there, lost)
                ]
          ]
    ]

-- A transfer on record stays on record.
Later-kept :
    (u : BankTransaction) {s s' : Store}
    → Later s s'
    → find (same_id u) s.txns ≢ none
    → find (same_id u) s'.txns ≢ none
Later-kept u at_once there = there
Later-kept u (then_step l (delivers down now r cfg t s)) there =
    delivery-kept u down now r cfg t s (Later-kept u l there)
Later-kept u (then_step l (attaches down now r id code actor note s)) there =
    attachment-kept u down now r id code actor note s (Later-kept u l there)
Later-kept u (then_step l (dismisses down id actor note s)) there =
    dismissal-kept u down id actor note s (Later-kept u l there)
Later-kept u (then_step l (notifies down now r when n raw s)) there =
    notice-kept u down now r when n raw s (Later-kept u l there)
Later-kept u (then_step l (elsewhere s s' same)) there =
    let kept = Later-kept u l there in rw same kept

-- A transfer that was applied once is never applied again. After any number of deliveries, of
-- notifications, and of transfers attached or dismissed by admins, and of steps that leave the ledger
-- as it is, a delivery of it, with whatever clock, configuration and failing statements, leaves every
-- table as it is, and reports a duplicate or a database error.
pub apply_sepay_once :
    (down₁ down₂ : Faults) (now₁ now₂ : ℕ) (r₁ r₂ : Reader) (cfg₁ cfg₂ : Option Config)
    (t : BankTransaction) (s : Store) (out : Outcome) (s' s'' : Store)
    → apply_sepay down₁ now₁ r₁ cfg₁ t s ≡ (ok out, s')
    → out.duplicate ≡ false
    → Later s' s''
    → (apply_sepay down₂ now₂ r₂ cfg₂ t s'' ≡ (ok already_recorded, s''))
      ⊎ (apply_sepay down₂ now₂ r₂ cfg₂ t s'' ≡ (err db_error, s''))
apply_sepay_once down₁ down₂ now₁ now₂ r₁ r₂ cfg₁ cfg₂ t s out s' s'' h d l =
    elim (apply_sepay-Applied down₁ now₁ r₁ cfg₁ t s out s' h) [
      | inl (e, _, _) ↦ absurd (ground (arith, e, d))
      | inr (_, _, there, _, _) ↦ recorded-replay down₂ now₂ r₂ cfg₂ t s'' (Later-kept t l there)
    ]

-- A notification that was applied once is never applied again. After any number of deliveries, of
-- notifications, and of transfers attached or dismissed by admins, and of steps that leave the ledger
-- as it is, a delivery of it, with whatever clock, date reading, text and failing statements, leaves
-- every table as it is, and reports a duplicate or a database error.
pub apply_gateway_ipn_once :
    (down₁ down₂ : Faults) (now₁ now₂ : ℕ) (r₁ r₂ : Reader) (when₁ when₂ : Text → ℕ)
    (n : GatewayIpn) (raw₁ raw₂ : Text) (s : Store) (out : Outcome) (s' s'' : Store)
    → apply_gateway_ipn down₁ now₁ r₁ when₁ n raw₁ s ≡ (ok out, s')
    → out.duplicate ≡ false
    → Later s' s''
    → (apply_gateway_ipn down₂ now₂ r₂ when₂ n raw₂ s'' ≡ (ok already_recorded, s''))
      ⊎ (apply_gateway_ipn down₂ now₂ r₂ when₂ n raw₂ s'' ≡ (err db_error, s''))
apply_gateway_ipn_once down₁ down₂ now₁ now₂ r₁ r₂ when₁ when₂ n raw₁ raw₂ s out s' s'' h d l =
    let (t, row, there) = applied-row down₁ now₁ r₁ when₁ n raw₁ s out s' h d in
    recorded_ipn-replay down₂ now₂ r₂ when₁ when₂ n raw₁ raw₂ t s'' row (Later-kept t l there)
