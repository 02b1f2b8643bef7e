-- ===== src/Payment/Reconcile/Gateway.antt =====
-- internal/pkg/payment/gateway_reconcile.go: polling the gateway's order API for orders that are still
-- unpaid here. What the API answers is an argument: a failed call, no such order, or its detail.
use koviobe.Base.{
  ℕ, suc, ◌+◌, ◌*◌, ◌^◌, ◌≡◌, ◌≢◌, ◌⊎◌, Text, Bool, true, false, ◌&&◌, not, Option, none, some,
  List, [], ◌∷◌, ◌++◌, codes, ltb, length, if◌then◌else◌, is_empty, text_eq, trim_space, find,
  select, reverse, ok, err,
}
use koviobe.Model.Errors.{reconcile_not_configured, fetch_failed, db_error, find_orders, Faults}
use koviobe.Model.Payment.{PaymentOrder, OrderStatus, pending, expired}
use koviobe.Model.Config.{Config}
use koviobe.Model.Store.{Store}
use koviobe.Payment.Orders.{uses_gateway, gateway_configured}
use koviobe.Payment.Amount.{parse_vnd}
use koviobe.Payment.Gateway.{GatewayIpn, apply_gateway_ipn}
use koviobe.Payment.Reconcile.{Env, ReconcileResult, Run, skip_one, tally, no_results}

pub record DetailTxn : Type 0 where
  pub payment_method : Text
  pub transaction_type : Text
  pub transaction_status : Text
  pub transaction_amount : Text
  pub transaction_date : Text

pub record GatewayOrderDetail : Type 0 where
  pub order_id : Text
  pub order_status : Text
  pub order_amount : Text
  pub customer_id : Text
  pub transactions : List DetailTxn

abbrev pub is_approved_payment : DetailTxn → Bool
is_approved_payment t =
    text_eq t.transaction_status (codes "APPROVED") && text_eq t.transaction_type (codes "PAYMENT")

abbrev amount_of : GatewayOrderDetail → Option DetailTxn → Text
amount_of d none = d.order_amount
amount_of d (some t) =
    if is_empty (trim_space t.transaction_amount) then d.order_amount else t.transaction_amount

abbrev method_of : Option DetailTxn → Text
method_of none = []
method_of (some t) = t.payment_method

abbrev date_of : Option DetailTxn → Text
date_of none = []
date_of (some t) = t.transaction_date

unfoldable pub ipn_from_detail : Text → GatewayOrderDetail → GatewayIpn
ipn_from_detail code d =
    let approved : Option DetailTxn = find is_approved_payment d.transactions in
    record {
      notification_type = codes "ORDER_PAID";
      order_id = d.order_id;
      order_status = d.order_status;
      order_currency = codes "VND";
      order_amount = d.order_amount;
      order_invoice_number = code;
      order_description = codes "reconciled from SePay order API";
      txn_id = codes "reconcile:" ++ code;
      payment_method = method_of approved;
      transaction_id = [];
      transaction_type = codes "PAYMENT";
      transaction_date = date_of approved;
      transaction_status = codes "APPROVED";
      transaction_amount = amount_of d approved;
      transaction_currency = codes "VND";
      customer_id = d.customer_id;
    }

-- gatewayReconcileSettle.
abbrev gateway_settle : ℕ
gateway_settle = 15 * 60 * 10 ^ 9

abbrev is_unpaid : OrderStatus → Bool
is_unpaid pending = true
is_unpaid expired = true
is_unpaid _ = false

-- The orders of the window, less the freshest.
abbrev in_window : ℕ → ℕ → PaymentOrder → Bool
in_window now window o =
    is_unpaid o.status && ltb now (o.created_at + window) && ltb (o.created_at + gateway_settle) now

abbrev captured_detail : Option GatewayOrderDetail → Option GatewayOrderDetail
captured_detail none = none
captured_detail (some d) = if text_eq d.order_status (codes "CAPTURED") then some d else none

unfoldable pub poll_orders :
    (Text → ℕ)
    → (GatewayOrderDetail → Text)
    → (ℕ → Text → Option (Option GatewayOrderDetail))
    → (ℕ → Bool)
    → (ℕ → Env)
    → List PaymentOrder
    → ℕ
    → ReconcileResult
    → Store
    → Run
poll_orders when raw api is_cancelled env [] i res s = record {
  stopped = none;
  result = res;
  store = s;
}
poll_orders when raw api is_cancelled env (o ∷ os) i res s =
    let skipped = poll_orders when raw api is_cancelled env os (suc i) (skip_one res) s in
    if is_cancelled i
    then record { stopped = some fetch_failed; result = res; store = s }
    else elim (api i o.order_code) [
      | none ↦ record { stopped = some fetch_failed; result = res; store = s }
      | some answer ↦ elim (captured_detail answer) [
        | none ↦ skipped
        | some d ↦
            let (applied, s') =
              apply_gateway_ipn (env i).down (env i).now (env i).reader when
                (ipn_from_detail o.order_code d) (raw d) s in
            elim applied [
              | err e ↦ record { stopped = some e; result = res; store = s' }
              | ok out ↦ poll_orders when raw api is_cancelled env os (suc i) (tally out res) s'
            ]
      ]
    ]

-- ReconcileGateway; `now` is the clock at its start, orders are polled in the order of their ids.
unfoldable pub reconcile_gateway :
    (Text → ℕ)
    → (GatewayOrderDetail → Text)
    → (ℕ → Text → Option (Option GatewayOrderDetail))
    → (ℕ → Bool)
    → (ℕ → Env)
    → Faults
    → Option Config
    → ℕ
    → ℕ
    → ℕ
    → Store
    → Run
reconcile_gateway when raw api is_cancelled env down cfg since now window s =
    let orders : List PaymentOrder = reverse (select (in_window now window) s.orders) in
    if not (uses_gateway cfg && gateway_configured cfg)
    then record { stopped = some reconcile_not_configured; result = no_results since 0; store = s }
    else if down find_orders
    then record { stopped = some db_error; result = no_results since 0; store = s }
    else poll_orders when raw api is_cancelled env orders 0 (no_results since (length orders)) s

-- The amount that an order's detail is worth: that of its first approved payment, or the order's, where
-- there is no such payment or its amount is blank.
abbrev pub DetailAmount : GatewayOrderDetail → ℕ → Type 0
DetailAmount d a =
    ((t : DetailTxn) × (find is_approved_payment d.transactions ≡ some t)
      × (t.transaction_status ≡ codes "APPROVED")
      × (t.transaction_type ≡ codes "PAYMENT")
      × (trim_space t.transaction_amount ≢ [])
      × (parse_vnd t.transaction_amount ≡ some a))
    ⊎ (((find is_approved_payment d.transactions ≡ none)
          ⊎ ((t : DetailTxn) × (find is_approved_payment d.transactions ≡ some t)
              × (trim_space t.transaction_amount ≡ [])))
        × (parse_vnd d.order_amount ≡ some a))
