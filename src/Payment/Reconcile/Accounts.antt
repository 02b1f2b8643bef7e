-- ===== src/Payment/Reconcile/Accounts.antt =====
-- The counters of a run agree with what it did to the tables.
use koviobe.Base.{
  ℕ, suc, ◌+◌, ◌≤◌, ◌≡◌, ◌⊎◌, inl, inr, refl, Text, Option, none, some, List, [], ◌∷◌, length,
  Result, ok, err, arith, Bool-cases, Option-cases,
}
use koviobe.Model.Errors.{Error}
use koviobe.Model.Payment.{BankTransaction}
use koviobe.Model.Config.{Config}
use koviobe.Model.Store.{Store}
use koviobe.Payment.Sepay.{Outcome, apply_sepay}
use koviobe.Payment.Sepay.Replay.{Applied, apply_sepay-Applied, apply_sepay_err}
use koviobe.Payment.Webhook.{SepayListTxn}
use koviobe.Payment.Reconcile.{
  Env, ReconcileResult, Run, tally, skip_one, row_of, is_passed_over, reconcile_rows, reconcile,
  no_results, reconcile_configured,
}

-- From one point of a run to a later one, codes are minted as orders are settled, and no more
-- orders are settled than transfers recorded.
pub record Balanced (res res' : ReconcileResult) (s s' : Store) : Type 0 where
  pub codes_minted : length s'.license_codes + res.settled ≡ length s.license_codes + res'.settled
  pub settled_within : res'.settled + res.recorded ≤ res.settled + res'.recorded
  pub ledger_grown : length s'.txns + res.recorded ≡ length s.txns + res'.recorded

Balanced-here : (res : ReconcileResult) (s : Store) → Balanced res res s s
Balanced-here res s = record {
  codes_minted = refl;
  settled_within = omega arith;
  ledger_grown = refl;
}

skip-Balanced : (res : ReconcileResult) (s : Store) → Balanced res (skip_one res) s s
skip-Balanced res s = record {
  codes_minted = refl;
  settled_within = omega arith;
  ledger_grown = refl;
}

Balanced-then :
    {res res' res'' : ReconcileResult} {s s' s'' : Store}
    → Balanced res res' s s'
    → Balanced res' res'' s' s''
    → Balanced res res'' s s''
Balanced-then v w = record {
  codes_minted = omega (arith, v.codes_minted, w.codes_minted);
  settled_within = omega (arith, v.settled_within, w.settled_within);
  ledger_grown = omega (arith, v.ledger_grown, w.ledger_grown);
}

tally-Balanced :
    (t : BankTransaction) (s : Store) (out : Outcome) (s' : Store) (res : ReconcileResult)
    → Applied t s out s'
    → Balanced res (tally out res) s s'
unfolding tally
tally-Balanced t s out s' res (inl (e, same, _)) = record {
  codes_minted = ground (arith, e, same);
  settled_within = ground (arith, e, same);
  ledger_grown = ground (arith, e, same);
}
tally-Balanced t s out s' res (inr (fresh, _, _, inl (p, c, minted), more)) = record {
  codes_minted = ground (arith, fresh, p, minted);
  settled_within = ground (arith, fresh, p);
  ledger_grown = ground (arith, fresh, more);
}
tally-Balanced t s out s' res (inr (fresh, _, _, inr (p, kept), more)) = record {
  codes_minted = ground (arith, fresh, p, kept);
  settled_within = ground (arith, fresh, p);
  ledger_grown = ground (arith, fresh, more);
}

tally_count :
    (out : Outcome) (res : ReconcileResult)
    → (tally out res).recorded + (tally out res).skipped ≡ suc (res.recorded + res.skipped)
unfolding tally
tally_count out res = ground arith

apply_cases :
    (e : Env) (cfg : Option Config) (t : BankTransaction) (s : Store)
    → ((x : Error) × (apply_sepay e.down e.now e.reader cfg t s ≡ (err x, s)))
      ⊎ ((out : Outcome) × (s' : Store) × (apply_sepay e.down e.now e.reader cfg t s ≡ (ok out, s'))
          × Applied t s out s')
apply_cases e cfg t s = from (apply_sepay e.down e.now e.reader cfg t s) refl
  where
    from :
        (v : Result Error Outcome × Store)
        → apply_sepay e.down e.now e.reader cfg t s ≡ v
        → ((x : Error) × (apply_sepay e.down e.now e.reader cfg t s ≡ (err x, s)))
          ⊎ ((out : Outcome) × (s' : Store) × (apply_sepay e.down e.now e.reader cfg t s
                ≡ (ok out, s'))
              × Applied t s out s')
    from (err x, s') p =
        inl (x, ground (arith, p, apply_sepay_err e.down e.now e.reader cfg t s x s' p))
    from (ok out, s') p =
        inr (out, s', p, apply_sepay-Applied e.down e.now e.reader cfg t s out s' p)

module _ (read_date : Text → Option ℕ) (raw : SepayListTxn → Text) (env : ℕ → Env)
    (cfg : Option Config) (start : ℕ) where
  abbrev run : List SepayListTxn → ℕ → ReconcileResult → Store → Run
  run = reconcile_rows read_date raw env cfg start

  -- One row: it is passed over, or the run stops at it, or it is applied.
  row_cases :
      (r : SepayListTxn) (rs : List SepayListTxn) (i : ℕ) (res : ReconcileResult) (s : Store)
      → (run (r ∷ rs) i res s ≡ run rs (suc i) (skip_one res) s)
        ⊎ ((x : Error) × (run (r ∷ rs) i res s
              ≡ record { stopped = some x; result = res; store = s }))
        ⊎ ((out : Outcome) × (s' : Store) × (run (r ∷ rs) i res s
              ≡ run rs (suc i) (tally out res) s')
            × Applied (row_of read_date raw (env i) r) s out s')
  unfolding reconcile_rows
  row_cases r rs i res s =
      elim (Bool-cases (is_passed_over start (row_of read_date raw (env i) r))) [
        | inl p ↦ inl (ground (arith, p))
        | inr p ↦ elim (apply_cases (env i) cfg (row_of read_date raw (env i) r) s) [
          | inl (x, q) ↦ inr (inl (x, ground (arith, p, q)))
          | inr (out, s', q, v) ↦ inr (inr (out, s', ground (arith, p, q), v))
        ]
      ]

  reconcile_rows-Balanced :
      (rows : List SepayListTxn) (i : ℕ) (res : ReconcileResult) (s : Store)
      → Balanced res (run rows i res s).result s (run rows i res s).store
  unfolding reconcile_rows
  reconcile_rows-Balanced [] i res s = Balanced-here res s
  reconcile_rows-Balanced (r ∷ rs) i res s = elim (row_cases r rs i res s) [
    | inl p ↦
        rw p (
          Balanced-then (skip-Balanced res s) (reconcile_rows-Balanced rs (suc i) (skip_one res) s))
    | inr (inl (x, p)) ↦ rw p (Balanced-here res s)
    | inr (inr (out, s', p, v)) ↦ rw p (
        Balanced-then (tally-Balanced _ s out s' res v)
          (reconcile_rows-Balanced rs (suc i) (tally out res) s'))
  ]

  -- A run that is not stopped has counted every row, as recorded or as skipped.
  reconcile_rows-counted :
      (rows : List SepayListTxn) (i : ℕ) (res : ReconcileResult) (s : Store)
      → (run rows i res s).stopped ≡ none
      → (run rows i res s).result.recorded + (run rows i res s).result.skipped
        ≡ length rows + (res.recorded + res.skipped)
  unfolding reconcile_rows
  reconcile_rows-counted [] i res s h = omega arith
  reconcile_rows-counted (r ∷ rs) i res s h = elim (row_cases r rs i res s) [
    | inl p ↦
        rw p
          (omega (arith, reconcile_rows-counted rs (suc i) (skip_one res) s (ground (arith, p, h))))
    | inr (inl (x, p)) ↦ absurd (ground (arith, p, h))
    | inr (inr (out, s', p, _)) ↦ rw p (
        omega (
          arith,
          reconcile_rows-counted rs (suc i) (tally out res) s' (ground (arith, p, h)),
          tally_count out res,
        ))
  ]

-- A run of the reconciliation, stopped or not, mints as many codes as it reports orders paid, which
-- are at most the transfers it reports new.
pub reconcile-Balanced :
    (read_date : Text → Option ℕ) (raw : SepayListTxn → Text) (env : ℕ → Env) (cfg : Option Config)
    (fetched : Option (List SepayListTxn)) (since start : ℕ) (s : Store)
    → (length (reconcile read_date raw env cfg fetched since start s).store.license_codes
        ≡ length s.license_codes
          + (reconcile read_date raw env cfg fetched since start s).result.settled)
      × ((reconcile read_date raw env cfg fetched since start s).result.settled
          ≤ (reconcile read_date raw env cfg fetched since start s).result.recorded)
unfolding reconcile
reconcile-Balanced read_date raw env cfg fetched since start s =
    elim (Bool-cases (reconcile_configured cfg)) [
      | inr off ↦ (ground (arith, off), ground (arith, off))
      | inl on ↦ elim (Option-cases fetched) [
        | inl p ↦ (ground (arith, on, p), ground (arith, on, p))
        | inr (rows, p) ↦
            let v =
              reconcile_rows-Balanced read_date raw env cfg start rows 0
                (no_results since (length rows)) s in
            (ground (arith, on, p, v.codes_minted), ground (arith, on, p, v.settled_within))
      ]
    ]

-- A run that nothing stops counts every row that SePay returned, as recorded or as skipped, and the
-- ledger has grown by exactly the rows that it counts as recorded.
pub reconcile-counted :
    (read_date : Text → Option ℕ) (raw : SepayListTxn → Text) (env : ℕ → Env) (cfg : Option Config)
    (rows : List SepayListTxn) (since start : ℕ) (s : Store)
    → (reconcile read_date raw env cfg (some rows) since start s).stopped ≡ none
    → ((reconcile read_date raw env cfg (some rows) since start s).result.recorded
          + (reconcile read_date raw env cfg (some rows) since start s).result.skipped
        ≡ length rows)
      × (length (reconcile read_date raw env cfg (some rows) since start s).store.txns
          ≡ length s.txns
            + (reconcile read_date raw env cfg (some rows) since start s).result.recorded)
unfolding reconcile
reconcile-counted read_date raw env cfg rows since start s h =
    elim (Bool-cases (reconcile_configured cfg)) [
      | inr off ↦ absurd (ground (arith, off, h))
      | inl on ↦
          let v =
            reconcile_rows-Balanced read_date raw env cfg start rows 0
              (no_results since (length rows)) s in
          let c =
            reconcile_rows-counted read_date raw env cfg start rows 0
              (no_results since (length rows)) s (ground (arith, on, h)) in
          (ground (arith, on, c), ground (arith, on, v.ledger_grown))
    ]
