-- ===== src/Payment/Orders.antt =====
-- internal/pkg/payment/order.go: opening, reading, cancelling and confirming a checkout, and the
-- sweep. Each handler is one serialisable step, as its row locks make it.
pub mod Checkout
use koviobe.Base.{
  ℕ, zero, suc, ◌+◌, ◌*◌, ◌^◌, Text, Bool, true, false, ◌&&◌, ◌||◌, not, Option, none, some, List,
  [], ◌∷◌, ◌++◌, codes, ◌==◌, ltb, leb, if◌then◌else◌, is_empty, upper, text_eq, trim_space, find,
  count, select, update_where, is_positive, Result, ok, err, ◌>>=◌, ◌>>◌, return, fail, guard, gets,
  modify, or_fail, second,
}
use koviobe.Model.Errors.{
  Error, Faults, Query, find_product, find_open_orders, update_order, count_orders, insert_order,
  find_order, expire_orders, checkout_closed, product_unavailable, order_not_found,
  order_not_pending, order_already_paid, order_not_cancelable, confirm_fields, too_many_orders,
  unique_violation, random_failed, db_error,
}
use koviobe.Model.License.{payment_manual}
use koviobe.Model.Payment.{
  PaymentProduct, PaymentOrder, OrderStatus, pending, paid, expired, cancelled, needs_review,
  no_reason,
}
use koviobe.Model.Config.{Config}
use koviobe.Model.Store.{Store, Db, stmt, transaction}
use koviobe.License.Code.{Reader}
use koviobe.Payment.Code.{new_order_code}
use koviobe.Payment.Settle.{mark_paid, save}
use koviobe.Payment.Sepay.{order_is, lock_order, grant_context}

abbrev pub order_ttl : ℕ
order_ttl = 30 * 60 * second

abbrev pub is_pending : OrderStatus → Bool
is_pending pending = true
is_pending _ = false

abbrev pub uses_gateway : Option Config → Bool
uses_gateway none = false
uses_gateway (some c) = text_eq c.payment_provider (codes "sepay_pg")

abbrev pub gateway_configured : Option Config → Bool
gateway_configured none = false
gateway_configured (some c) =
    not (is_empty c.sepay_pg_merchant_id)
    && not (is_empty c.sepay_pg_secret_key)
    && not (is_empty c.public_app_url)

abbrev pub bank_configured : Option Config → Bool
bank_configured none = false
bank_configured (some c) =
    not (is_empty c.payment_bank_name)
    && not (is_empty c.payment_bank_account)
    && not (is_empty c.payment_qr_image_base)
    && not (is_empty c.sepay_api_key)

unfoldable pub checkout_configured : Option Config → Bool
checkout_configured cfg = if uses_gateway cfg then gateway_configured cfg else bank_configured cfg

-- `switch` is what settings.GetBool returns for payment.enabled, none where the read fails.
unfoldable pub checkout_enabled : Option Config → Option Bool → Bool
unfolding checkout_configured
checkout_enabled cfg none = false
checkout_enabled cfg (some on) = on && checkout_configured cfg

unfoldable pub order_churn_cap : Option Config → ℕ
order_churn_cap none = 10
order_churn_cap (some c) = c.payment_max_orders_per_hour

unfoldable pub on_sale : Text → PaymentProduct → Bool
on_sale id p = text_eq p.id id && p.is_active

unfoldable pub is_open : ℕ → PaymentOrder → Bool
is_open user o = o.user_id == user && is_pending o.status

unfoldable pub recent : ℕ → ℕ → PaymentOrder → Bool
recent user now o = o.user_id == user && ltb now (o.created_at + 3600 * second)

unfoldable pub close_order : Faults → ℕ → (PaymentOrder → PaymentOrder) → Db (Unit {0})
close_order down id f = do
  stmt down (update_order id)
  modify (λ s. record s { orders = update_where (λ r. r.id == id) f s.orders })

abbrev pub expire_it : PaymentOrder → PaymentOrder
expire_it r = record r { status = expired }

abbrev pub supersede_it : PaymentOrder → PaymentOrder
supersede_it r = record r { status = cancelled; note = codes "superseded by a new checkout" }

abbrev pub same_offer : PaymentProduct → PaymentOrder → Bool
same_offer p o = text_eq o.product_id p.id && o.amount_vnd == p.amount_vnd

-- The loop over the buyer's pending orders: the live one for the same offer is resumed, and every
-- other is closed on the way.
unfoldable pub resume : Faults → ℕ → PaymentProduct → List PaymentOrder → Db (Option PaymentOrder)
unfolding close_order
resume down now p [] = return none
resume down now p (o ∷ os) =
    let rest = resume down now p os in
    if ltb o.expires_at now
    then (close_order down o.id expire_it >>= λ _. rest)
    else if same_offer p o
    then return (some o)
    else (close_order down o.id supersede_it >>= λ _. rest)

abbrev pub new_order : Text → ℕ → PaymentProduct → ℕ → ℕ → PaymentOrder
new_order code user p id now = record {
  id = id;
  order_code = code;
  user_id = user;
  product_id = p.id;
  product_name = p.name;
  plan_id = p.plan_id;
  duration_days = p.duration_days;
  amount_vnd = p.amount_vnd;
  status = pending;
  review_reason = no_reason;
  expires_at = now + order_ttl;
  paid_at = none;
  paid_amount_vnd = 0;
  external_ref = [];
  confirmed_by = none;
  license_code = [];
  note = [];
  created_at = now;
}

-- The two unique indexes: the order code, and one pending order for each user.
abbrev pub collides : Text → ℕ → PaymentOrder → Bool
collides code user r = text_eq r.order_code code || is_open user r

unfoldable pub insert_new_order : Faults → Text → ℕ → PaymentProduct → ℕ → Db PaymentOrder
insert_new_order down code user p now = do
  clash ← gets (λ s. find (collides code user) s.orders)
  n ← gets (λ s. s.next_order)
  stmt down insert_order
  let o = new_order code user p n now
  elim clash [
    | some _ ↦ fail unique_violation
    | none ↦
        modify (λ s. record s { orders = o ∷ s.orders; next_order = suc s.next_order }) >> return o
  ]

unfoldable pub check_churn : Faults → Option Config → ℕ → ℕ → Db (Unit {0})
check_churn down cfg user now =
    if is_positive (order_churn_cap cfg)
    then (do
      n ← gets (λ s. count (recent user now) s.orders)
      stmt down count_orders
      guard (ltb n (order_churn_cap cfg)) too_many_orders)
    else return tt

-- The part of createOrderOnce below the resume loop; `later` is its second reading of the clock.
unfoldable pub open_new :
    Faults
    → Option Config
    → ℕ
    → ℕ
    → Text
    → ℕ
    → PaymentProduct
    → Option PaymentOrder
    → Db PaymentOrder
open_new down cfg now later code user p (some o) = return o
open_new down cfg now later code user p none = do
  check_churn down cfg user now
  insert_new_order down code user p later

unfoldable pub create_order_once :
    Faults → Reader → Option Config → ℕ → ℕ → ℕ → Text → Store → Result Error PaymentOrder × Store
create_order_once down r cfg now later user product s = elim (new_order_code r) [
  | none ↦ (err random_failed, s)
  | some code ↦
      transaction down
        (do
          offer ← gets (λ s. find (on_sale product) s.products)
          guard (not (down (find_product product))) product_unavailable
          p ← or_fail offer product_unavailable
          stmt down find_open_orders
          open_orders ← gets (λ s. select (is_open user) s.orders)
          live ← resume down now p open_orders
          open_new down cfg now later code user p live)
        s
]

abbrev is_violation : Result Error PaymentOrder → Bool
is_violation (err unique_violation) = true
is_violation _ = false

-- The attempts of CreateOrder, each with its own failing statements, random numbers and clock.
pub record Attempt : Type 0 where
  pub down : Faults
  pub reader : Reader
  pub now : ℕ
  pub later : ℕ

abbrev pub attempt : Option Config → ℕ → Text → Attempt → Store → Result Error PaymentOrder × Store
attempt cfg user product a s = create_order_once a.down a.reader cfg a.now a.later user product s

unfoldable pub attempts :
    Option Config → ℕ → Text → List Attempt → Store → Result Error PaymentOrder × Store
attempts cfg user product [] s = (err unique_violation, s)
attempts cfg user product (a ∷ as_) s =
    let (res, s') = attempt cfg user product a s in
    let again = attempts cfg user product as_ s' in if is_violation res then again else (res, s')

unfoldable pub create_order :
    Option Config
    → Option Bool
    → ℕ
    → Text
    → Attempt
    → Attempt
    → Attempt
    → Store
    → Result Error PaymentOrder × Store
unfolding attempts
create_order cfg switch user product a b c s =
    if checkout_enabled cfg switch
    then attempts cfg user product (a ∷ b ∷ c ∷ []) s
    else (err checkout_closed, s)

unfoldable pub owned_by : ℕ → Text → PaymentOrder → Bool
owned_by user code o = text_eq o.order_code code && o.user_id == user

-- GetUserOrder: a pending order past its time reads as expired; the row is left alone.
unfoldable pub get_user_order : Faults → ℕ → ℕ → Text → Store → Result Error PaymentOrder
get_user_order down now user raw s =
    let code = upper (trim_space raw) in
    if down (find_order code)
    then err order_not_found
    else elim (find (owned_by user code) s.orders) [
      | none ↦ err order_not_found
      | some o ↦ ok (if is_pending o.status && ltb o.expires_at now then expire_it o else o)
    ]

unfoldable pub cancel_user_order : Faults → ℕ → Text → Store → Result Error PaymentOrder × Store
cancel_user_order down user raw = transaction down (do
  let code = upper (trim_space raw)
  row ← gets (λ s. find (owned_by user code) s.orders)
  guard (not (down (find_order code))) order_not_found
  o ← or_fail row order_not_found
  guard (is_pending o.status) order_not_pending
  let o' = record o { status = cancelled; note = codes "cancelled by buyer" }
  save down o'
  return o')

-- The address of the admin goes into a context that MarkPaidTx does not read, and is left out.
pub record ConfirmInput : Type 0 where
  pub amount_vnd : ℕ
  pub external_ref : Text
  pub note : Text
  pub actor_user_id : ℕ

abbrev pub is_paid_status : OrderStatus → Bool
is_paid_status paid = true
is_paid_status _ = false

unfoldable pub admin_confirm :
    Faults → ℕ → Reader → Text → ConfirmInput → Store → Result Error PaymentOrder × Store
admin_confirm down now r raw i s =
    let ref = trim_space i.external_ref in
    let note = trim_space i.note in
    if not (is_positive i.amount_vnd) || is_empty ref || is_empty note
    then (err confirm_fields, s)
    else transaction down
        (do
          o ← lock_order down raw
          guard (not (is_paid_status o.status)) order_already_paid
          mark_paid down now r o i.amount_vnd
              (grant_context payment_manual ref i.actor_user_id note))
        s

abbrev pub is_cancelable : OrderStatus → Bool
is_cancelable pending = true
is_cancelable needs_review = true
is_cancelable expired = true
is_cancelable _ = false

unfoldable pub admin_cancel : Faults → Text → Text → ℕ → Store → Result Error PaymentOrder × Store
admin_cancel down raw raw_note actor = transaction down (do
  o ← lock_order down raw
  guard (is_cancelable o.status) order_not_cancelable
  let note = trim_space raw_note
  let o' = record o {
    status = cancelled;
    confirmed_by = some actor;
    note = if is_empty note then o.note else note;
  }
  save down o'
  return o')

abbrev pub is_stale : ℕ → PaymentOrder → Bool
is_stale now o = is_pending o.status && ltb o.expires_at now

-- ExpireStale: one UPDATE, and the number of rows that it changed.
unfoldable pub expire_stale : Faults → ℕ → Store → Result Error ℕ × Store
expire_stale down now s = if down expire_orders then (err db_error, s) else (
  ok (count (is_stale now) s.orders),
  record s { orders = update_where (is_stale now) expire_it s.orders },
)
