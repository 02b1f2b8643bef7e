-- ===== src/Platform/RateLimit/Window.antt =====
-- The limit over one window, and the end of a window.
use koviobe.Base.{
  ℕ, suc, ◌+◌, ◌≤◌, ◌<◌, ◌-◌, ◌≡◌, ◌⊎◌, inl, inr, refl, Bool, false, Option, none, some, List, [],
  ◌∷◌, leb, arith, Bool-cases,
}
use koviobe.Platform.RateLimit.{
  Entry, incr_with_ttl, passed, rate_limit, Request, requests, passes, let_through,
}

-- Every request of a list falls into one window.
abbrev pub Within : ℕ → ℕ → List Request → Type 0
Within start window [] = Unit
Within start window (r ∷ rs) =
    (start ≤ r.at_second) × (r.at_second < start + window) × Within start window rs

incr-live :
    (t window n e : ℕ)
    → t < e
    → incr_with_ttl t window (some (record { count = n; expires = some e }))
      ≡ record { count = suc n; expires = some e }
unfolding incr_with_ttl
incr-live t window n e h = ground (arith, h)

-- Once a key counts n requests and lives through the window, at most max - n more are counted and pass.
window-passes :
    (max window start e : ℕ) (fail_closed : Bool) (rs : List Request) (n : ℕ)
    → start + window ≤ e
    → Within start window rs
    → passes (requests max window fail_closed rs (some (record { count = n; expires = some e }))).0
      ≤ (max - n) + let_through fail_closed rs
unfolding requests passes rate_limit let_through
window-passes max window start e fail_closed [] n lives h = omega arith
window-passes max window start e fail_closed (r ∷ rs) n lives (_, h, hs) =
    let x = incr-live r.at_second window n e (omega (arith, lives, h)) in
    let counted = window-passes max window start e fail_closed rs (suc n) lives hs in
    let missed = window-passes max window start e fail_closed rs n lives hs in
    elim (Bool-cases r.down) [
      | inl off ↦ elim (Bool-cases fail_closed) [
        | inl c ↦ ground (arith, off, c, missed)
        | inr c ↦ ground (arith, off, c, missed)
      ]
      | inr on ↦ ground (arith, on, x, counted)
    ]

incr-fresh :
    (t window : ℕ) → incr_with_ttl t window none ≡ record { count = 1; expires = some (t + window) }
unfolding incr_with_ttl
incr-fresh t window = refl

-- From an empty key on, at most `max` requests of one window pass, and beside them those that Redis
-- does not answer, if the limiter fails open; if it fails closed, none beside them.
pub requests-capped :
    (max window start : ℕ) (fail_closed : Bool) (rs : List Request)
    → Within start window rs
    → passes (requests max window fail_closed rs none).0 ≤ max + let_through fail_closed rs
unfolding requests passes rate_limit let_through
requests-capped max window start fail_closed [] h = omega arith
requests-capped max window start fail_closed (r ∷ rs) (from, h, hs) =
    let missed = requests-capped max window start fail_closed rs hs in
    let counted =
      window-passes max window start (r.at_second + window) fail_closed rs 1 (omega (arith, from))
        hs in
    elim (Bool-cases r.down) [
      | inl off ↦ elim (Bool-cases fail_closed) [
        | inl c ↦ ground (arith, off, c, missed)
        | inr c ↦ ground (arith, off, c, missed)
      ]
      | inr on ↦ ground (arith, on, counted, incr-fresh r.at_second window)
    ]

-- A key that runs out within a window of a second, if it runs out by itself at all.
abbrev pub RunsOut : ℕ → ℕ → Option Entry → Type 0
RunsOut window t none = Unit
RunsOut window t (some x) = (x.expires ≡ none) ⊎ ((e : ℕ) × (x.expires ≡ some e) × (e ≤ t + window))

counted-ends :
    (window t : ℕ) (key : Option Entry)
    → RunsOut window t key
    → (e : ℕ) × (n : ℕ) × (incr_with_ttl t window key ≡ record { count = n; expires = some e })
      × (e ≤ t + window)
unfolding incr_with_ttl
counted-ends window t none h = (t + window, 1, refl, omega arith)
counted-ends window t (some x) (inl p) = (t + window, suc x.count, ground (arith, p), omega arith)
counted-ends window t (some x) (inr (e, p, h)) = elim (Bool-cases (leb e t)) [
  | inl gone ↦ (t + window, 1, ground (arith, p, gone), omega arith)
  | inr there ↦ (e, suc x.count, ground (arith, p, there), h)
]

fresh-passed :
    (max window : ℕ) (fail_closed : Bool) (t n e : ℕ)
    → 1 ≤ max
    → e ≤ t
    → (rate_limit max window fail_closed false t (some (record { count = n; expires = some e }))).0
      ≡ passed
unfolding rate_limit incr_with_ttl
fresh-passed max window fail_closed t n e h ended = ground (arith, h, ended)

-- Nobody is locked out for good: while Redis answers, and the limit is at least one, a request that
-- comes a window after a counted one, with none counted between them, passes; also where the key had
-- lost its time to live, but not where the key was set to live longer than a window.
pub rate_limit-resets :
    (max window : ℕ) (fail_closed : Bool) (t t' : ℕ) (key : Option Entry)
    → 1 ≤ max
    → RunsOut window t key
    → t + window ≤ t'
    → (rate_limit max window fail_closed false t'
        (rate_limit max window fail_closed false t key).1).0
      ≡ passed
unfolding rate_limit
rate_limit-resets max window fail_closed t t' key h run later =
    let (e, n, x, within) = counted-ends window t key run in
    let ended = fresh-passed max window fail_closed t' n e h (omega (arith, within, later)) in
    ground (arith, x, ended)
