-- ===== src/Model/Store.antt =====
-- The database as its tables. Rows of orders and transactions stand newest first, and take their
-- ids from a counter, as the serial columns do.
use koviobe.Base.{ℕ, Bool, List, if◌then◌else◌, Tx, Result, ok, err, guard, not}
use koviobe.Model.Errors.{Error, Query, Faults, begin, commit, db_error}
use koviobe.Model.License.{
  PricingPlan, Subscription, LicenseCode, LicenseRedemption, SubscriptionEvent, User,
}
use koviobe.Model.Payment.{PaymentProduct, PaymentOrder, BankTransaction}

pub record Store : Type 0 where
  pub plans : List PricingPlan
  pub products : List PaymentProduct
  pub users : List User
  pub orders : List PaymentOrder
  pub next_order : ℕ
  pub txns : List BankTransaction
  pub next_txn : ℕ
  pub license_codes : List LicenseCode
  pub redemptions : List LicenseRedemption
  pub subscriptions : List Subscription
  pub events : List SubscriptionEvent

abbrev pub Db : Type 0 → Type 0
Db A = Tx Error Store A

-- A statement that the database refuses ends the handler with the driver's error.
abbrev pub stmt : {S : Type 0} → Faults → Query → Tx Error S (Unit {0})
stmt down q = guard (not (down q)) db_error

-- db.Transaction: an error, in the body or at the commit, leaves the tables as they were.
unfoldable pub committed : {A S : Type 0} → Bool → S → Result Error (A × S) → Result Error A × S
committed refused s (err e) = (err e, s)
committed refused s (ok (a, s')) = if refused then (err db_error, s) else (ok a, s')

unfoldable pub transaction : {A S : Type 0} → Faults → Tx Error S A → S → Result Error A × S
unfolding committed
transaction down body s =
    if down begin then (err db_error, s) else committed (down commit) s (body s)
