-- ===== src/Payment/Reconcile.antt =====
-- internal/pkg/payment/reconcile.go: pulling SePay's list through the path of the webhook. What the
-- list call returned is an argument, as is the JSON text of a row; the callback, which sends mail, is left
-- out. Run i of the loop meets `env i`: its clock, its failing statements, its random bytes.
pub mod Accounts
pub mod Gateway
use koviobe.Base.{
  ℕ, suc, ◌+◌, ◌*◌, ◌^◌, Text, Bool, true, false, ◌&&◌, ◌||◌, not, Option, none, some, List, [],
  ◌∷◌, codes, ltb, length, if◌then◌else◌, is_empty, text_eq, Result, ok, err,
}
use koviobe.Model.Errors.{Error, Faults, reconcile_not_configured, fetch_failed}
use koviobe.Model.Payment.{BankTransaction}
use koviobe.Model.Config.{Config}
use koviobe.Model.Store.{Store}
use koviobe.License.Code.{Reader}
use koviobe.Payment.Sepay.{Outcome, needs_human, apply_sepay}
use koviobe.Payment.Webhook.{SepayListTxn, SepayWebhook, to_webhook, to_transaction}

pub record Env : Type 0 where
  pub down : Faults
  pub now : ℕ
  pub reader : Reader

-- The counters of a run, which the list's limit of 5,000 rows bounds.
pub record ReconcileResult : Type 0 where
  pub fetched : ℕ
  pub recorded : ℕ
  pub settled : ℕ
  pub need_human : ℕ
  pub skipped : ℕ
  pub since : ℕ

abbrev pub reconcile_settle : ℕ
reconcile_settle = 15 * 60 * 10 ^ 9

unfoldable pub reconcile_configured : Option Config → Bool
reconcile_configured none = false
reconcile_configured (some c) =
    not (is_empty c.sepay_api_token) && not (is_empty c.payment_bank_account)

abbrev pub skip_one : ReconcileResult → ReconcileResult
skip_one res = record res { skipped = suc res.skipped }

abbrev pub add_if : Bool → ℕ → ℕ
add_if true n = suc n
add_if false n = n

-- The counters after a transfer that was applied.
unfoldable pub tally : Outcome → ReconcileResult → ReconcileResult
tally out res = if out.duplicate then skip_one res else (record res {
  recorded = suc res.recorded;
  settled = add_if out.is_paid res.settled;
  need_human = add_if (needs_human out) res.need_human;
})

-- Rows that are left to the webhook, or that carry no money in. The row's date is compared with the
-- cutoff, `now` less a quarter of an hour.
unfoldable pub is_passed_over : ℕ → BankTransaction → Bool
is_passed_over now t =
    not (text_eq t.transfer_type (codes "in")) || ltb now (t.transaction_date + reconcile_settle)

abbrev pub row_of : (Text → Option ℕ) → (SepayListTxn → Text) → Env → SepayListTxn → BankTransaction
row_of read_date raw e r = record (to_transaction read_date e.now (to_webhook r) (raw r)) {
  note = codes "reconciled";
}

-- What a run returns beside its tables: the error that stopped it, and the counters.
pub record Run : Type 0 where
  pub stopped : Option Error
  pub result : ReconcileResult
  pub store : Store

unfoldable pub reconcile_rows :
    (Text → Option ℕ)
    → (SepayListTxn → Text)
    → (ℕ → Env)
    → Option Config
    → ℕ
    → List SepayListTxn
    → ℕ
    → ReconcileResult
    → Store
    → Run
reconcile_rows read_date raw env cfg start [] i res s = record {
  stopped = none;
  result = res;
  store = s;
}
reconcile_rows read_date raw env cfg start (r ∷ rs) i res s =
    let t = row_of read_date raw (env i) r in
    let (applied, s') = apply_sepay (env i).down (env i).now (env i).reader cfg t s in
    let passed_over = reconcile_rows read_date raw env cfg start rs (suc i) (skip_one res) s in
    if is_passed_over start t then passed_over else elim applied [
      | err e ↦ record { stopped = some e; result = res; store = s' }
      | ok out ↦ reconcile_rows read_date raw env cfg start rs (suc i) (tally out res) s'
    ]

abbrev no_results : ℕ → ℕ → ReconcileResult
no_results since n = record {
  fetched = n;
  recorded = 0;
  settled = 0;
  need_human = 0;
  skipped = 0;
  since = since;
}

-- Reconcile: `fetched` is the list that SePay returned, if it did; `start` the clock after it.
unfoldable pub reconcile :
    (Text → Option ℕ)
    → (SepayListTxn → Text)
    → (ℕ → Env)
    → Option Config
    → Option (List SepayListTxn)
    → ℕ
    → ℕ
    → Store
    → Run
reconcile read_date raw env cfg fetched since start s =
    if reconcile_configured cfg
    then elim fetched [
      | none ↦ record { stopped = some fetch_failed; result = no_results since 0; store = s }
      | some rows ↦
          reconcile_rows read_date raw env cfg start rows 0 (no_results since (length rows)) s
    ]
    else record { stopped = some reconcile_not_configured; result = no_results since 0; store = s }
