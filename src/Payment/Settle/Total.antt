-- ===== src/Payment/Settle/Total.antt =====
-- A payment goes through when the database answers: `settle` has a result on every order.
use koviobe.Base.{
  ℕ, suc, ◌≡◌, ◌≢◌, refl, Text, true, false, none, some, [], ◌∷◌, inl, inr, find, length, ok, err,
  arith, is_negative, text_eq, Result-cases,
}
use koviobe.Model.Errors.{Error, no_faults}
use koviobe.Model.License.{LicenseCode, GrantContext, PricingPlan, plan_free}
use koviobe.Model.Payment.{PaymentOrder, BankTransaction}
use koviobe.Model.Store.{Store}
use koviobe.License.Code.{
  Reader, GenerateOptions, random_payload, new_code, code_is, plan_active, insert_new_code,
  mint_loop, generate_codes,
}
use koviobe.License.Code.Minting.{random_payload-length}
use koviobe.Payment.Settle.{
  order_code_options, mark_paid, save, set_txn, review, settle, settle_exact, Settled, late_context,
}

-- What minting one code under `opts` needs: a plan on sale, a term, and a code that is new.
pub record CanMint (r : Reader) (opts : GenerateOptions) (s : Store) : Type 0 where
  pub plan : PricingPlan
  pub on_sale : find (plan_active opts.plan_id) s.plans ≡ some plan
  pub not_free : text_eq opts.plan_id plan_free ≡ false
  pub term : is_negative opts.duration_days ≡ false
  pub payload : Text
  pub rest : Reader
  pub drawn : random_payload r ≡ some (payload, rest)
  pub fresh : find (code_is (new_code opts payload).code) s.license_codes ≡ none

insert_new_code_fresh :
    (c : LicenseCode) (s : Store)
    → find (code_is c.code) s.license_codes ≡ none
    → insert_new_code no_faults c s ≡ ok (true, record s { license_codes = c ∷ s.license_codes })
unfolding insert_new_code
insert_new_code_fresh c s h = ground (arith, h)

mint_loop_full :
    (f : ℕ) (o : GenerateOptions) (r : Reader) (c : LicenseCode) (s : Store)
    → o.count ≡ 1
    → mint_loop (suc f) no_faults o r (c ∷ []) s ≡ ok (c ∷ [], s)
unfolding mint_loop
mint_loop_full f o r c s h = ground (arith, h)

mint_loop_once :
    (f : ℕ) (o : GenerateOptions) (r : Reader) (p : Text) (r' : Reader) (s : Store)
    → o.count ≡ 1
    → random_payload r ≡ some (p, r')
    → find (code_is (new_code o p).code) s.license_codes ≡ none
    → mint_loop (suc (suc f)) no_faults o r [] s
      ≡ ok (new_code o p ∷ [], record s { license_codes = new_code o p ∷ s.license_codes })
mint_loop_once f o r p r' s one drawn new =
    let next =
      mint_loop_full f o r' (new_code o p)
        (record s { license_codes = new_code o p ∷ s.license_codes }) one in
    let put = insert_new_code_fresh (new_code o p) s new in
    unfold mint_loop in ground (arith, one, drawn, put, next)

generate_codes_runs :
    (r : Reader) (o : PaymentOrder) (amount : ℕ) (gc : GrantContext) (s : Store)
    (m : CanMint r (order_code_options o amount gc) s)
    → generate_codes no_faults r (order_code_options o amount gc) s
      ≡ ok (
        new_code (order_code_options o amount gc) m.payload ∷ [],
        record s {
          license_codes = new_code (order_code_options o amount gc) m.payload ∷ s.license_codes;
        },
      )
unfolding generate_codes
generate_codes_runs [] o amount gc s m =
    absurd (omega (arith, random_payload-length [] _ _ m.drawn))
generate_codes_runs (x ∷ r) o amount gc s m =
    let once =
      mint_loop_once (length r) (order_code_options o amount gc) (x ∷ r) m.payload m.rest s refl
        m.drawn m.fresh in
    ground (arith, once)

settle_exact_runs :
    (now : ℕ) (r : Reader) (t : BankTransaction) (o : PaymentOrder) (gc : GrantContext) (s : Store)
    (e : Error)
    → CanMint r (order_code_options o t.amount_vnd gc) s
    → settle_exact no_faults now r t o gc s ≢ err e
unfolding settle_exact save set_txn mark_paid
settle_exact_runs now r t o gc s e m = ground (arith, generate_codes_runs r o t.amount_vnd gc s m)

settle_runs :
    (now : ℕ) (r : Reader) (t : BankTransaction) (o : PaymentOrder) (gc : GrantContext) (s : Store)
    (e : Error)
    → CanMint r (order_code_options o t.amount_vnd (late_context o.status gc)) s
    → settle no_faults now r t o gc s ≢ err e
unfolding settle review save set_txn
settle_runs now r t o gc s e m =
    ground (arith, settle_exact_runs now r t o (late_context o.status gc) s e m)

-- With a code to mint and a database that answers, a transfer for any order is settled.
pub settle_total :
    (now : ℕ) (r : Reader) (t : BankTransaction) (o : PaymentOrder) (gc : GrantContext) (s : Store)
    → CanMint r (order_code_options o t.amount_vnd (late_context o.status gc)) s
    → (z : Settled) × (s' : Store) × (settle no_faults now r t o gc s ≡ ok (z, s'))
settle_total now r t o gc s m = elim (Result-cases (settle no_faults now r t o gc s)) [
  | inl (e, p) ↦ absurd (settle_runs now r t o gc s e m p)
  | inr ((z, s'), p) ↦ (z, s', p)
]
