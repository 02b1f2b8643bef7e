-- ===== src/Platform/RateLimit.antt =====
-- internal/middleware/ratelimit.go: the fixed-window limiter, over one key of Redis. The two scripts
-- that count (here and in internal/pkg/email/guard.go) are the same; time is in whole seconds.
pub mod Window
use koviobe.Base.{
  ℕ, suc, ◌+◌, ◌&&◌, not, Text, Bool, true, false, Option, none, some, List, [], ◌∷◌, ltb, leb,
  if◌then◌else◌, is_empty, text_eq, is_positive,
}
use koviobe.Model.Config.{Config}

-- A key: its value, and the second at which it expires, if it does.
pub record Entry : Type 0 where
  pub count : ℕ
  pub expires : Option ℕ

abbrev is_gone : ℕ → Option ℕ → Bool
is_gone now none = false
is_gone now (some e) = leb e now

-- What Redis holds under the key at a time.
abbrev pub live : ℕ → Option Entry → Option Entry
live now none = none
live now (some x) = if is_gone now x.expires then none else some x

abbrev pub armed : ℕ → ℕ → Option ℕ → Option ℕ
armed now window none = some (now + window)
armed now window (some e) = some e

abbrev count_in : ℕ → ℕ → Option Entry → Entry
count_in now window none = record { count = 1; expires = some (now + window) }
count_in now window (some x) = record { count = suc x.count; expires = armed now window x.expires }

-- incrWithTTL: INCR, and EXPIRE where the key has no time to live.
unfoldable pub incr_with_ttl : ℕ → ℕ → Option Entry → Entry
incr_with_ttl now window key = count_in now window (live now key)

pub data Verdict : Type 0 where
  passed limited unavailable : Verdict

-- RateLimitKey: `down` says that Redis did not answer.
unfoldable pub rate_limit : ℕ → ℕ → Bool → Bool → ℕ → Option Entry → Verdict × Option Entry
rate_limit max window fail_closed down now key =
    if down then (if fail_closed then unavailable else passed, key) else (
      if ltb max (incr_with_ttl now window key).count then limited else passed,
      some (incr_with_ttl now window key),
    )

-- capacityLimit.
unfoldable pub capacity_limit : Option Config → (Config → ℕ) → ℕ → ℕ
capacity_limit none read fallback = fallback
capacity_limit (some c) read fallback = if is_positive (read c) then read c else fallback

-- A request: its time, and whether Redis does not answer for it.
pub record Request : Type 0 where
  pub at_second : ℕ
  pub down : Bool

-- Requests against one key.
unfoldable pub requests : ℕ → ℕ → Bool → List Request → Option Entry → List Verdict × Option Entry
requests max window fail_closed [] key = ([], key)
requests max window fail_closed (r ∷ rs) key =
    let (v, key') = rate_limit max window fail_closed r.down r.at_second key in
    let (vs, key'') = requests max window fail_closed rs key' in (v ∷ vs, key'')

-- The requests that Redis does not answer, where the limiter lets those pass.
unfoldable pub let_through : Bool → List Request → ℕ
let_through fail_closed [] = 0
let_through fail_closed (r ∷ rs) =
    let n = let_through fail_closed rs in if r.down && not fail_closed then suc n else n

abbrev one_if_passed : Verdict → ℕ
one_if_passed passed = 1
one_if_passed _ = 0

unfoldable pub passes : List Verdict → ℕ
passes [] = 0
passes (v ∷ vs) = one_if_passed v + passes vs
