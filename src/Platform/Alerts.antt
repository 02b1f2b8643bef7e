-- ===== src/Platform/Alerts.antt =====
-- internal/pkg/notify/control.go: the mute window, and the ring buffer of the last alerts.
pub mod Newest
use koviobe.Base.{
  ℕ, ◌+◌, ◌-◌, suc, zero, Text, Bool, List, [], ◌∷◌, ◌++◌, length, drop, ltb, if◌then◌else◌, Option,
  none, some,
}

pub data Level : Type 0 where
  p0 p1 : Level

pub record Alert : Type 0 where
  pub level : Level
  pub key : Text
  pub text : Text
  pub at_time : ℕ
  pub count : ℕ
  pub is_muted : Bool

-- The deadline of the mute and the buffer, oldest first. The zero time is 0.
pub record Control : Type 0 where
  pub muted_until : ℕ
  pub recent : List Alert

abbrev pub recent_cap : ℕ
recent_cap = 25

unfoldable pub mute : ℕ → ℕ → Control → Control
mute now d c = record c { muted_until = now + d }

unfoldable pub unmute : Control → Control
unmute c = record c { muted_until = 0 }

unfoldable pub is_muted_at : ℕ → Control → Bool
is_muted_at now c = ltb now c.muted_until

abbrev last_of : ℕ → List Alert → List Alert
last_of n xs = drop (length xs - n) xs

unfoldable pub remember : Alert → Control → Control
remember r c = record c {
  recent =
      if ltb recent_cap (length (c.recent ++ r ∷ []))
      then last_of recent_cap (c.recent ++ r ∷ [])
      else c.recent ++ r ∷ [];
}

-- The element at an index, in front of the ones that are read after it.
abbrev with_element : Option Alert → List Alert → List Alert
with_element none rest = rest
with_element (some r) rest = r ∷ rest

unfoldable pub element_at : List Alert → ℕ → Option Alert
element_at [] i = none
element_at (r ∷ rs) zero = some r
element_at (r ∷ rs) (suc i) = element_at rs i

-- The loop of Recent: k elements, from index i - 1 down.
unfoldable pub read_back : List Alert → ℕ → ℕ → List Alert
read_back rs zero i = []
read_back rs (suc k) zero = []
read_back rs (suc k) (suc i) = with_element (element_at rs i) (read_back rs k i)

-- Recent, for n that is not negative.
unfoldable pub recent_alerts : ℕ → Control → List Alert
recent_alerts n c =
    let m = if ltb (length c.recent) n then length c.recent else n in
    read_back c.recent m (length c.recent)
