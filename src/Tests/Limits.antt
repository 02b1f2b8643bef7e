-- ===== src/Tests/Limits.antt =====
-- The theorems on the switch, the limiter and the readers of amounts and columns, applied.
use koviobe.Platform.Alerts.{Alert, p1, recent_cap, recent_alerts}
use koviobe.Platform.Alerts.Newest.{remember_all, recent_alerts-newest}
use koviobe.Base.{
  ℕ, ◌≡◌, ◌≤◌, ◌+◌, ◌⊎◌, ◌++◌, inl, refl, arith, codes, true, false, none, some, List, [], ◌∷◌,
  to_decimal, take, reverse, text_eq, trim_space, is_space,
}
use koviobe.Platform.Settings.{
  Switch, Event, begins, stores, set, served, init_enforcement, after, on_event, end_refresh,
  set_enforcement, begin_refresh, get_bool, parse_bool, parse_bool_text,
}
use koviobe.Platform.Settings.Agreement.{RowOn, RowWasOn, after_init-RowWasOn}
use koviobe.Platform.RateLimit.{Entry, Request, rate_limit, requests, passes, passed, let_through}
use koviobe.Platform.RateLimit.Window.{requests-capped, rate_limit-resets}
use koviobe.Payment.Amount.{parse_vnd}
use koviobe.Payment.Amount.RoundTrip.{parse_vnd-to_decimal}
use koviobe.Payment.Clip.{clip, fit, clip-fit}
use koviobe.Tests.{settings}

abbrev fresh_process : Switch
fresh_process = record {
  row = some (codes "true");
  enforcement = false;
  env_pinned = false;
  reading = none;
}

-- An admin switches off between the read and the store of a refresh, and the refresh switches on again.
abbrev crossing : List Event
crossing = begins served ∷ set false false ∷ stores ∷ []

crosses :
    (after crossing (init_enforcement (some settings) served fresh_process)).enforcement ≡ true
unfolding after on_event end_refresh set_enforcement begin_refresh init_enforcement get_bool
    parse_bool parse_bool_text text_eq trim_space is_space
crosses = refl

after_init-RowWasOn_example :
    ((after crossing (init_enforcement (some settings) served fresh_process)).env_pinned ≡ true)
    ⊎ (RowOn fresh_process
        ⊎ RowWasOn crossing (init_enforcement (some settings) served fresh_process))
after_init-RowWasOn_example =
    after_init-RowWasOn (some settings) served fresh_process crossing refl refl crosses

-- Four requests within a minute, of which two may pass; Redis misses one.
abbrev burst : List Request
burst =
    record { at_second = 100; down = false }
    ∷ record { at_second = 110; down = false }
    ∷ record { at_second = 120; down = true }
    ∷ record { at_second = 159; down = false }
    ∷ []

requests-capped_example : passes (requests 2 60 false burst none).0 ≤ 2 + let_through false burst
requests-capped_example = requests-capped 2 60 100 false burst (
  omega arith,
  omega arith,
  (omega arith, omega arith, (omega arith, omega arith, (omega arith, omega arith, tt))),
)

-- A key that lost its time to live, at a count far over the limit.
abbrev stuck_key : Entry
stuck_key = record { count = 900; expires = none }

rate_limit-resets_example :
    (rate_limit 8 60 true false 160 (rate_limit 8 60 true false 100 (some stuck_key)).1).0 ≡ passed
rate_limit-resets_example =
    rate_limit-resets 8 60 true 100 160 (some stuck_key) (omega arith) (inl refl) (omega arith)

parse_vnd-to_decimal_example :
    (parse_vnd (to_decimal 99000) ≡ some 99000)
    × (parse_vnd (to_decimal 99000 ++ codes ".00") ≡ some 99000)
parse_vnd-to_decimal_example = parse_vnd-to_decimal 99000 (omega arith)

clip-fit_example : clip (codes "đồng") 4 ≡ fit 4 (codes "đồng")
clip-fit_example = clip-fit (codes "đồng") 4

abbrev disk_full : ℕ → Alert
disk_full t = record {
  level = p1;
  key = codes "disk";
  text = [];
  at_time = t;
  count = 1;
  is_muted = false;
}

recent_alerts-newest_example :
    recent_alerts 2 (
      remember_all
        (disk_full 1 ∷ disk_full 2 ∷ disk_full 3 ∷ [])
        (record { muted_until = 0; recent = [] }))
    ≡ take 2 (take recent_cap (reverse (disk_full 1 ∷ disk_full 2 ∷ disk_full 3 ∷ [])))
recent_alerts-newest_example =
    recent_alerts-newest 2 (disk_full 1 ∷ disk_full 2 ∷ disk_full 3 ∷ [])
      (record { muted_until = 0; recent = [] }) refl
