-- ===== src/Payment/Orders/Checkout.antt =====
-- Opening a checkout: the buyer is left with one pending order, the one that is returned.
use koviobe.Base.{
  ℕ, ◌+◌, ◌-◌, ◌≤◌, ◌≡◌, ◌⊎◌, Text, Bool, true, false, Option, none, some, List, [], ◌∷◌, ◌==◌,
  ◌||◌, find, count, ltb, ◌>>=◌, text_eq,
}
use koviobe.Model.Errors.{Faults}
use koviobe.Model.Payment.{PaymentOrder, PaymentProduct}
use koviobe.Model.Config.{Config}
use koviobe.Model.Store.{Store, Db}
use koviobe.Payment.Orders.{is_open, is_pending, resume, same_offer, open_new, order_ttl, on_sale}

has_id : ℕ → List PaymentOrder → Bool
has_id n [] = false
has_id n (o ∷ os) = o.id == n || has_id n os

-- Every pending order of the user stands in the list that is still to be gone through.
abbrev Covered : ℕ → List PaymentOrder → List PaymentOrder → Type 0
Covered user [] todo = Unit {0}
Covered user (r ∷ rows) todo =
    (is_open user r ≡ true → has_id r.id todo ≡ true) × Covered user rows todo

abbrev Closes : (PaymentOrder → PaymentOrder) → Type 0
Closes f = (r : PaymentOrder) → ((f r).id ≡ r.id) × (is_pending (f r).status ≡ false)

abbrev pub In : PaymentOrder → List PaymentOrder → Type 0
In o [] = ⊥
In o (x ∷ xs) = (x ≡ o) ⊎ In o xs

-- The live order that the loop finds, or none: then no pending order of the user is left.
abbrev Resumed : ℕ → ℕ → PaymentProduct → List PaymentOrder → Option PaymentOrder → Store → Type 0
Resumed now user p todo live s' =
    ((live ≡ none) × Covered user s'.orders [])
    ⊎ ((o : PaymentOrder) × (live ≡ some o)
        × In o todo
        × (ltb o.expires_at now ≡ false)
        × (same_offer p o ≡ true))

-- What a checkout hands out: a pending order of the buyer at the product's price, either the live
-- one that the buyer had, or a new one, which is then the buyer's only pending order.
pub record Opened (now later user : ℕ) (product : Text) (s : Store) (o : PaymentOrder) (s' : Store)
    : Type 0 where
  pub offer : PaymentProduct
  pub sold : find (on_sale product) s.products ≡ some offer
  pub price : (text_eq o.product_id offer.id ≡ true) × (o.amount_vnd ≡ offer.amount_vnd)
  pub open_ : is_open user o ≡ true
  pub kept_or_new :
      (In o s.orders × (now ≤ o.expires_at))
      ⊎ ((o.expires_at ≡ later + order_ttl)
          × In o s'.orders
          × (o.id ≡ s'.next_order - 1)
          × (count (is_open user) s'.orders ≡ 1))

-- The body of createOrderOnce, once the offer is read.
abbrev opening :
    Faults → Option Config → ℕ → ℕ → Text → ℕ → PaymentProduct → List PaymentOrder → Db PaymentOrder
opening down cfg now later code user p todo =
    resume down now p todo >>= open_new down cfg now later code user p
