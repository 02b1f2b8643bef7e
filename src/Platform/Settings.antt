-- ===== src/Platform/Settings.antt =====
-- internal/pkg/settings/settings.go and internal/pkg/license/enforcement.go: the licence switch, as
-- a row of system_settings and the cached flag that every gated request reads.
pub mod Agreement
use koviobe.Base.{
  ℕ, Text, Bool, true, false, ◌||◌, Option, none, some, List, [], ◌∷◌, codes, if◌then◌else◌,
  text_eq, trim_space, Result, ok, err,
}
use koviobe.Model.Errors.{Error, db_error, enforcement_pinned, bad_setting}
use koviobe.Model.Config.{Config}

abbrev pub is_one_of : Text → List Text → Bool
is_one_of t [] = false
is_one_of t (x ∷ xs) = text_eq t x || is_one_of t xs

-- strconv.ParseBool.
unfoldable pub parse_bool_text : Text → Option Bool
parse_bool_text t =
    if is_one_of t
      (codes "1" ∷ codes "t" ∷ codes "T" ∷ codes "true" ∷ codes "TRUE" ∷ codes "True" ∷ [])
    then some true
    else if is_one_of t
        (codes "0" ∷ codes "f" ∷ codes "F" ∷ codes "false" ∷ codes "FALSE" ∷ codes "False" ∷ [])
    then some false
    else none

-- strconv.FormatBool.
abbrev pub format_bool : Bool → Text
format_bool true = codes "true"
format_bool false = codes "false"

-- parseBool: none is the error, with which the caller's default is returned.
unfoldable pub parse_bool : Text → Option Bool
parse_bool raw = parse_bool_text (trim_space raw)

-- How a read of the table goes: there is no connection, the database refuses it, or it is served.
pub data Access : Type 0 where
  no_database refused served : Access

-- GetBool of a row: none is the error; a row that is not there is the default. Get reports every
-- failed read as a missing row, so a read that the database refuses gives the default too.
unfoldable pub get_bool : Access → Option Text → Bool → Option Bool
get_bool no_database row def = none
get_bool refused row def = some def
get_bool served none def = some def
get_bool served (some raw) def = parse_bool raw

-- The row of the switch, the flag of the process, whether the environment owns it, and what a refresh
-- that is under way has read.
pub record Switch : Type 0 where
  pub row : Option Text
  pub enforcement : Bool
  pub env_pinned : Bool
  pub reading : Option Bool

abbrev or_off : Option Bool → Bool
or_off none = false
or_off (some v) = v

abbrev pub pins : Option Config → Bool
pins none = false
pins (some c) = c.license_enforcement

unfoldable pub init_enforcement : Option Config → Access → Switch → Switch
init_enforcement cfg a s =
    if pins cfg
    then record s { enforcement = true; env_pinned = true }
    else record s { enforcement = or_off (get_bool a s.row false) }

-- RefreshEnforcement reads the row, with the flag as its default, and then stores what it read; others
-- may write the row or the flag between the two.
unfoldable pub begin_refresh : Access → Switch → Switch
begin_refresh a s =
    if s.env_pinned then s else record s { reading = get_bool a s.row s.enforcement }

abbrev pub stored : Option Bool → Switch → Switch
stored none s = s
stored (some v) s = record s { enforcement = v; reading = none }

unfoldable pub end_refresh : Switch → Switch
end_refresh s = stored s.reading s

-- RefreshEnforcement undisturbed.
unfoldable pub refresh_enforcement : Access → Switch → Switch
unfolding begin_refresh end_refresh
refresh_enforcement a s = end_refresh (begin_refresh a s)

unfoldable pub set_enforcement : Bool → Bool → Switch → Result Error Bool × Switch
set_enforcement down v s =
    if s.env_pinned
    then (err enforcement_pinned, s)
    else if down
    then (err db_error, s)
    else (ok v, record s { row = some (format_bool v); enforcement = v })

-- What befalls a process after it has started: the halves of a refresh, a refresh as a whole, a set,
-- and a row that another process has written or deleted.
pub data Event : Type 0 where
  begins : Access → Event
  stores : Event
  refresh : Access → Event
  set : Bool → Bool → Event
  rewritten : Option Text → Event

unfoldable pub on_event : Event → Switch → Switch
on_event (begins a) s = begin_refresh a s
on_event stores s = end_refresh s
on_event (refresh a) s = refresh_enforcement a s
on_event (set down v) s = (set_enforcement down v s).1
on_event (rewritten row) s = record s { row = row }

-- A process: the flags at their zero values, the start, and then the events.
unfoldable pub after : List Event → Switch → Switch
after [] s = s
after (e ∷ es) s = after es (on_event e s)
