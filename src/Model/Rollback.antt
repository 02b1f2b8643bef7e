-- ===== src/Model/Rollback.antt =====
-- What a transaction promises, whatever its body is.
use koviobe.Base.{◌≡◌, ◌⊎◌, inl, inr, Result, ok, err, arith, Result-cases, Bool-cases}
use koviobe.Model.Errors.{Error, Faults, begin, commit, db_error}
use koviobe.Model.Store.{transaction}

module _ {A S : Type 0} (down : Faults) (body : S → Result Error (A × S)) (s : S) where
  pub transaction-ok : (a : A) (s' : S) → transaction down body s ≡ (ok a, s') → body s ≡ ok (a, s')
  unfolding transaction
  transaction-ok a s' h = elim (Result-cases (body s)) [
    | inl (e, p) ↦ absurd (ground (arith, p, h))
    | inr ((b, s₁), p) ↦ ground (arith, p, h)
  ]

  -- A transaction succeeds, or fails and leaves every table as it was.
  pub transaction-cases :
      ((e : Error) × (transaction down body s ≡ (err e, s)))
      ⊎ ((a : A) × (s' : S) × (transaction down body s ≡ (ok a, s')))
  unfolding transaction
  transaction-cases = elim (Result-cases (body s)) [
    | inl (e, p) ↦ elim (Bool-cases (down begin)) [
      | inl q ↦ inl (db_error, ground (arith, p, q))
      | inr q ↦ inl (e, ground (arith, p, q))
    ]
    | inr ((b, s₁), p) ↦ elim (Bool-cases (down begin)) [
      | inl q ↦ inl (db_error, ground (arith, p, q))
      | inr q ↦ elim (Bool-cases (down commit)) [
        | inl r ↦ inl (db_error, ground (arith, p, q, r))
        | inr r ↦ inr (b, s₁, ground (arith, p, q, r))
      ]
    ]
  ]
