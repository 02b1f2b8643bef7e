-- ===== src/License/Code/Minting.antt =====
-- Minting a batch (GenerateCodesTx): what a batch writes, and that its loop ends.
use koviobe.Base.{
  ℕ, zero, suc, ◌+◌, ◌<◌, ◌≤◌, ◌≡◌, refl, Text, Bool, true, false, none, some, List, [], ◌∷◌, ◌++◌,
  reverse, ltb, if◌then◌else◌, length, find, arith, ok, Bool-cases, Option-cases, Result-cases, ◌∙◌,
  length-append, is_positive, ◌⊎◌, inl, inr,
}
use mathlib.Core.List.{append_assoc, append-nil, reverse-cons}
use koviobe.Model.Errors.{Faults}
use koviobe.Model.License.{LicenseCode}
use koviobe.Model.Store.{Store}
use koviobe.License.Code.{
  Reader, GenerateOptions, random_text, random_payload, insert_new_code, mint_loop, generate_codes,
  new_code, code_is,
}

random_text-length :
    (n : ℕ) (r : Reader) (s : Text) (r' : Reader)
    → random_text n r ≡ some (s, r')
    → (length s ≡ n) × (length r' + n ≡ length r)
unfolding random_text
random_text-length zero r s r' h = ground arith
random_text-length (suc n) [] s r' h = ground arith
random_text-length (suc n) (x ∷ r) s r' h = elim (Option-cases (random_text n r)) [
  | inl e ↦ absurd (ground (arith, e))
  | inr ((t, q), e) ↦ ground (arith, e, random_text-length n r t q e)
]

pub random_payload-length :
    (r : Reader) (s : Text) (r' : Reader)
    → random_payload r ≡ some (s, r')
    → (length s ≡ 12) × (length r' + 12 ≡ length r)
unfolding random_payload
random_payload-length = random_text-length 12

insert_new_code-ok :
    (down : Faults) (c : LicenseCode) (s : Store) (w : Bool) (s' : Store)
    → insert_new_code down c s ≡ ok (w, s')
    → ((w ≡ true)
        × (s' ≡ record s { license_codes = c ∷ s.license_codes })
        × (find (code_is c.code) s.license_codes ≡ none))
      ⊎ ((w ≡ false) × (s' ≡ s))
unfolding insert_new_code
insert_new_code-ok down c s w s' h = ground arith

-- A batch `cs` written to `s` one code at a time, each under a code that no row had before.
pub data Mints (o : GenerateOptions) : Store → List LicenseCode → Store → Type 0 where
  none_left : {s : Store} → Mints o s [] s
  minted :
      {s s' : Store} {cs : List LicenseCode} (payload : Text)
      → find (code_is (new_code o payload).code) s.license_codes ≡ none
      → Mints o (record s { license_codes = new_code o payload ∷ s.license_codes }) cs s'
      → Mints o s (new_code o payload ∷ cs) s'

abbrev Batch : GenerateOptions → List LicenseCode → Store → List LicenseCode → Store → Type 0
Batch o out s cs s' =
    (new : List LicenseCode) × (cs ≡ out ++ new) × (length cs ≡ o.count) × Mints o s new s'

mint_round :
    (o : GenerateOptions) (p : Text) (out : List LicenseCode) (s : Store) (w : Bool) (s₁ : Store)
    (cs : List LicenseCode) (s' : Store)
    → ((w ≡ true)
        × (s₁ ≡ record s { license_codes = new_code o p ∷ s.license_codes })
        × (find (code_is (new_code o p).code) s.license_codes ≡ none))
      ⊎ ((w ≡ false) × (s₁ ≡ s))
    → Batch o (if w then out ++ new_code o p ∷ [] else out) s₁ cs s'
    → Batch o out s cs s'
mint_round o p out s w s₁ cs s' (inl (e, grown, fresh)) (new, all, len, m) = (
  new_code o p ∷ new,
  all ∙ rw e (append_assoc out (new_code o p ∷ []) new),
  len,
  minted p fresh (rw grown at m),
)
mint_round o p out s w s₁ cs s' (inr (e, same)) (new, all, len, m) =
    (new, all ∙ rw e, len, rw same at m)

mint_loop-Mints :
    (f : ℕ) (down : Faults) (o : GenerateOptions) (r : Reader) (out : List LicenseCode) (s : Store)
    (cs : List LicenseCode) (s' : Store)
    → length out ≤ o.count
    → mint_loop f down o r out s ≡ ok (cs, s')
    → Batch o out s cs s'
unfolding mint_loop
mint_loop-Mints zero down o r out s cs s' b h = absurd (ground (arith, h))
mint_loop-Mints (suc f) down o r out s cs s' b h = elim (Bool-cases (ltb (length out) o.count)) [
  | inl more ↦ elim (Option-cases (random_payload r)) [
    | inl e ↦ absurd (ground (arith, more, e))
    | inr ((p, r'), e) ↦ elim (Result-cases (insert_new_code down (new_code o p) s)) [
      | inl (x, e') ↦ absurd (ground (arith, more, e, e'))
      | inr ((w, s₁), e') ↦
          mint_round o p out s w s₁ cs s' (insert_new_code-ok down (new_code o p) s w s₁ e') (
            mint_loop-Mints f down o r' (if w then out ++ new_code o p ∷ [] else out) s₁ cs s'
              (ground (arith, length-append out (new_code o p ∷ []))) (ground (arith, more, e, e')))
    ]
  ]
  | inr done ↦ (
    [],
    ground (arith, append-nil out),
    ground arith,
    let e : s' ≡ s = ground arith in rw e none_left,
  )
]

-- Every code of a table is there once.
abbrev pub Unique : List LicenseCode → Type 0
Unique [] = Unit {0}
Unique (c ∷ cs) = (find (code_is c.code) cs ≡ none) × Unique cs

Mints-Unique :
    {o : GenerateOptions} {s s' : Store} {cs : List LicenseCode}
    → Mints o s cs s'
    → Unique s.license_codes
    → Unique s'.license_codes
Mints-Unique none_left u = u
Mints-Unique (minted p fresh m) u = Mints-Unique m (fresh, u)

pub Mints-table :
    {o : GenerateOptions} {s s' : Store} {cs : List LicenseCode}
    → Mints o s cs s'
    → s' ≡ record s { license_codes = reverse cs ++ s.license_codes }
Mints-table none_left = refl
Mints-table {s = s} (minted {cs = cs} p fresh m) = rw (reverse-cons, append_assoc) (Mints-table m)

-- What a minted code carries over from the options of its batch.
pub record Carries (o : GenerateOptions) (c : LicenseCode) : Type 0 where
  pub plan : c.plan_id ≡ o.plan_id
  pub days : c.duration_days ≡ o.duration_days
  pub uses : (c.used_count ≡ 0) × (1 ≤ c.max_uses)
  pub live : (c.revoked_at ≡ none) × (c.expires_at ≡ o.expires_at)
  pub origin : (c.batch ≡ o.batch) × (c.created_by ≡ o.created_by)
  pub money : (c.amount_vnd ≡ o.amount_vnd) × (c.external_ref ≡ o.external_ref)

abbrev pub All : (LicenseCode → Type 0) → List LicenseCode → Type 0
All P [] = Unit {0}
All P (c ∷ cs) = P c × All P cs

abbrev clamped : GenerateOptions → GenerateOptions
clamped opts = record opts { max_uses = if is_positive opts.max_uses then opts.max_uses else 1 }

new_code-Carries : (o : GenerateOptions) (p : Text) → Carries o (new_code (clamped o) p)
unfolding new_code
new_code-Carries o p = ground arith

Mints-Carries :
    (o : GenerateOptions) {s s' : Store} {cs : List LicenseCode}
    → Mints (clamped o) s cs s'
    → All (Carries o) cs
Mints-Carries o none_left = tt
Mints-Carries o (minted p fresh m) = (new_code-Carries o p, Mints-Carries o m)

-- What a batch leaves behind: as many codes as were asked for, each new, on top of the old table.
pub record IsBatch (o : GenerateOptions) (s : Store) (cs : List LicenseCode) (s' : Store)
    : Type 0 where
  pub size : length cs ≡ o.count
  pub table : s' ≡ record s { license_codes = reverse cs ++ s.license_codes }
  pub carried : All (Carries o) cs
  pub unique : Unique s.license_codes → Unique s'.license_codes

generate_codes-loop :
    (down : Faults) (r : Reader) (opts : GenerateOptions) (s : Store) (cs : List LicenseCode)
    (s' : Store)
    → generate_codes down r opts s ≡ ok (cs, s')
    → mint_loop (suc (length r)) down (clamped opts) r [] s ≡ ok (cs, s')
unfolding generate_codes
generate_codes-loop down r opts s cs s' h = ground arith

-- A batch that is minted has exactly the number of codes asked for; each is written under a code
-- that no row had before, so codes stay unique, and no other table changes.
pub generate_codes-IsBatch :
    (down : Faults) (r : Reader) (opts : GenerateOptions) (s : Store) (cs : List LicenseCode)
    (s' : Store)
    → generate_codes down r opts s ≡ ok (cs, s')
    → IsBatch opts s cs s'
generate_codes-IsBatch down r opts s cs s' h = finish (
    mint_loop-Mints (suc (length r)) down _ r [] s cs s' (omega arith)
      (generate_codes-loop down r opts s cs s' h))
  where
    finish : Batch (clamped opts) [] s cs s' → IsBatch opts s cs s'
    finish (new, all, len, m) = record {
      size = len;
      table = rw all (Mints-table m);
      carried = rw all (Mints-Carries opts m);
      unique = Mints-Unique m;
    }

-- More rounds than numbers to read change nothing: the fuel of `generate_codes` is enough.
pub mint_loop-fuel :
    (f g : ℕ) (down : Faults) (o : GenerateOptions) (r : Reader) (out : List LicenseCode)
    (s : Store)
    → length r < f
    → length r < g
    → mint_loop f down o r out s ≡ mint_loop g down o r out s
unfolding mint_loop
mint_loop-fuel zero g down o r out s p q = absurd (omega arith)
mint_loop-fuel (suc f) zero down o r out s p q = absurd (omega arith)
mint_loop-fuel (suc f) (suc g) down o r out s p q = elim (Bool-cases (ltb (length out) o.count)) [
  | inr done ↦ ground (arith, done)
  | inl more ↦ elim (Option-cases (random_payload r)) [
    | inl e ↦ ground (arith, more, e)
    | inr ((t, r'), e) ↦ elim (Result-cases (insert_new_code down (new_code o t) s)) [
      | inl (x, e') ↦ ground (arith, more, e, e')
      | inr ((w, s₁), e') ↦
          let len = random_payload-length r t r' e in
          let same =
            mint_loop-fuel f g down o r' (if w then out ++ new_code o t ∷ [] else out) s₁
              (omega (arith, len)) (omega (arith, len)) in
          ground (arith, more, e, e', same)
    ]
  ]
]

nil_of_length : (cs : List LicenseCode) → length cs ≡ 0 → cs ≡ []
nil_of_length [] h = refl
nil_of_length (c ∷ cs) h = absurd (omega arith)

-- A batch of one.
abbrev pub One : GenerateOptions → Store → List LicenseCode → Store → Type 0
One o s cs s' =
    (c : LicenseCode) × (cs ≡ c ∷ [])
    × Carries o c
    × (s' ≡ record s { license_codes = c ∷ s.license_codes })
    × (find (code_is c.code) s.license_codes ≡ none)

Mints-One :
    (o : GenerateOptions) {s s' : Store} {cs : List LicenseCode}
    → Mints (clamped o) s cs s'
    → length cs ≡ 1
    → One o s cs s'
Mints-One o none_left e = absurd (omega arith)
Mints-One o (minted {cs = cs} p fresh m) e =
    let last : cs ≡ [] = nil_of_length cs (omega arith) in
    (
      new_code (clamped o) p,
      rw last,
      new_code-Carries o p,
      ground (arith, Mints-table m, last),
      fresh,
    )

pub generate_codes-One :
    (down : Faults) (r : Reader) (opts : GenerateOptions) (s : Store) (cs : List LicenseCode)
    (s' : Store)
    → opts.count ≡ 1
    → generate_codes down r opts s ≡ ok (cs, s')
    → One opts s cs s'
generate_codes-One down r opts s cs s' one h = finish (
    mint_loop-Mints (suc (length r)) down (clamped opts) r [] s cs s' (omega arith)
      (generate_codes-loop down r opts s cs s' h))
  where
    finish : Batch (clamped opts) [] s cs s' → One opts s cs s'
    finish (new, all, len, m) = rw all (Mints-One opts m (ground (arith, all, len, one)))
