-- ===== src/Platform/Settings/Agreement.antt =====
-- The flag is warranted by the row, whatever admins, other processes and the database do.
use koviobe.Base.{
  ◌≡◌, ◌⊎◌, inl, inr, refl, Text, Bool, true, false, Option, none, some, List, [], ◌∷◌, codes,
  arith, Bool-cases, Option-cases, text_eq, trim_space, is_space,
}
use koviobe.Model.Config.{Config}
use koviobe.Platform.Settings.{
  Access, no_database, refused, served, Switch, Event, begins, stores, refresh, set, rewritten,
  on_event, after, init_enforcement, begin_refresh, end_refresh, refresh_enforcement,
  set_enforcement, parse_bool, parse_bool_text, format_bool, get_bool, pins,
}

parse_bool-format_bool : (v : Bool) → parse_bool (format_bool v) ≡ some v
unfolding parse_bool parse_bool_text trim_space text_eq is_space
parse_bool-format_bool true = refl
parse_bool-format_bool false = refl

-- The row reads as on.
abbrev pub RowOn : Switch → Type 0
RowOn s = (raw : Text) × (s.row ≡ some raw) × (parse_bool raw ≡ some true)

-- The row reads as on before the first event, or after one of them.
abbrev pub RowWasOn : List Event → Switch → Type 0
RowWasOn [] s = RowOn s
RowWasOn (e ∷ es) s = RowOn s ⊎ RowWasOn es (on_event e s)

-- The flag is off and no refresh is about to put it on, or the environment owns it, or a fact warrants it.
abbrev Warranted : Type 0 → Switch → Type 0
Warranted H s =
    ((s.enforcement ≡ false) × ((s.reading ≡ none) ⊎ (s.reading ≡ some false)))
    ⊎ (s.env_pinned ≡ true)
    ⊎ H

get_bool-on :
    (a : Access) (row : Option Text) (def : Bool)
    → get_bool a row def ≡ some true
    → (def ≡ true) ⊎ ((raw : Text) × (row ≡ some raw) × (parse_bool raw ≡ some true))
unfolding get_bool
get_bool-on no_database row def h = absurd (ground (arith, h))
get_bool-on refused row def h = inl (ground (arith, h))
get_bool-on served none def h = inl (ground (arith, h))
get_bool-on served (some raw) def h = inr (raw, refl, h)

weaker : (H K : Type 0) → (H → K) → (s : Switch) → Warranted H s → Warranted K s
weaker H K f s (inl w) = inl w
weaker H K f s (inr (inl p)) = inr (inl p)
weaker H K f s (inr (inr h)) = inr (inr (f h))

begin-Warranted :
    (H : Type 0) (a : Access) (s : Switch)
    → Warranted H s
    → Warranted (H ⊎ RowOn s) (begin_refresh a s)
unfolding begin_refresh
begin-Warranted H a s (inr (inr h)) = inr (inr (inl h))
begin-Warranted H a s (inr (inl p)) = inr (inl (ground (arith, p)))
begin-Warranted H a s (inl (off, r)) = elim (Bool-cases s.env_pinned) [
  | inl p ↦ inr (inl (ground (arith, p)))
  | inr p ↦ elim (Option-cases (get_bool a s.row s.enforcement)) [
    | inl q ↦ inl (ground (arith, p, off), inl (ground (arith, p, q)))
    | inr (false, q) ↦ inl (ground (arith, p, off), inr (ground (arith, p, q)))
    | inr (true, q) ↦ elim (get_bool-on a s.row s.enforcement q) [
      | inl e ↦ absurd (ground (arith, e, off))
      | inr on ↦ inr (inr (inr on))
    ]
  ]
]

end-Warranted : (H : Type 0) (s : Switch) → Warranted H s → Warranted H (end_refresh s)
unfolding end_refresh
end-Warranted H s (inr (inr h)) = inr (inr h)
end-Warranted H s (inr (inl p)) = elim (Option-cases s.reading) [
  | inl q ↦ inr (inl (ground (arith, p, q)))
  | inr (v, q) ↦ inr (inl (ground (arith, p, q)))
]
end-Warranted H s (inl (off, inl r)) = inl (ground (arith, off, r), inl (ground (arith, r)))
end-Warranted H s (inl (off, inr r)) = inl (ground (arith, r), inl (ground (arith, r)))

set-Warranted :
    (H : Type 0) (down v : Bool) (s : Switch)
    → Warranted H s
    → Warranted (H ⊎ RowOn (set_enforcement down v s).1) (set_enforcement down v s).1
unfolding set_enforcement
set-Warranted H down v s (inr (inr h)) = inr (inr (inl h))
set-Warranted H down v s (inr (inl p)) = inr (inl (ground (arith, p)))
set-Warranted H true v s (inl (off, inl r)) = inl (ground (arith, off), inl (ground (arith, r)))
set-Warranted H true v s (inl (off, inr r)) = inl (ground (arith, off), inr (ground (arith, r)))
set-Warranted H false false s (inl (off, inl r)) =
    inl (ground (arith, off), inl (ground (arith, r)))
set-Warranted H false false s (inl (off, inr r)) =
    inl (ground (arith, off), inr (ground (arith, r)))
set-Warranted H false true s (inl (off, r)) = elim (Bool-cases s.env_pinned) [
  | inl p ↦ inr (inl (ground (arith, p)))
  | inr p ↦ inr (inr (inr (codes "true", ground (arith, p), parse_bool-format_bool true)))
]

on_event-Warranted :
    (H : Type 0) (e : Event) (s : Switch)
    → Warranted H s
    → Warranted ((H ⊎ RowOn s) ⊎ RowOn (on_event e s)) (on_event e s)
unfolding on_event refresh_enforcement
on_event-Warranted H (begins a) s w =
    weaker (H ⊎ RowOn s) _ (λ h. inl h) (begin_refresh a s) (begin-Warranted H a s w)
on_event-Warranted H stores s w =
    weaker H _ (λ h. inl (inl h)) (end_refresh s) (end-Warranted H s w)
on_event-Warranted H (refresh a) s w =
    weaker (H ⊎ RowOn s) _ (λ h. inl h) (end_refresh (begin_refresh a s))
      (end-Warranted (H ⊎ RowOn s) (begin_refresh a s) (begin-Warranted H a s w))
on_event-Warranted H (set down v) s w =
    weaker (H ⊎ RowOn (set_enforcement down v s).1) _
      (λ h. elim h [ inl x ↦ inl (inl x) | inr y ↦ inr y ]) (set_enforcement down v s).1
      (set-Warranted H down v s w)
on_event-Warranted H (rewritten row) s w = weaker H _ (λ h. inl (inl h)) (record s { row = row }) w

RowOn-first : (es : List Event) (s : Switch) → RowOn s → RowWasOn es s
RowOn-first [] s on = on
RowOn-first (e ∷ es) s on = inl on

after-Warranted :
    (H : Type 0) (es : List Event) (s : Switch)
    → Warranted H s
    → Warranted (H ⊎ RowWasOn es s) (after es s)
unfolding after
after-Warranted H [] s w = weaker H _ (λ h. inl h) s w
after-Warranted H (e ∷ es) s w =
    weaker (((H ⊎ RowOn s) ⊎ RowOn (on_event e s)) ⊎ RowWasOn es (on_event e s)) _
      (λ h. elim h [
        | inl (inl (inl x)) ↦ inl x
        | inl (inl (inr y)) ↦ inr (inl y)
        | inl (inr z) ↦ inr (inr (RowOn-first es (on_event e s) z))
        | inr later ↦ inr (inr later)
      ])
      (after es (on_event e s))
      (after-Warranted ((H ⊎ RowOn s) ⊎ RowOn (on_event e s)) es (on_event e s)
        (on_event-Warranted H e s w))

init-Warranted :
    (cfg : Option Config) (a : Access) (s : Switch)
    → s.enforcement ≡ false
    → s.reading ≡ none
    → Warranted (RowOn s) (init_enforcement cfg a s)
unfolding init_enforcement
init-Warranted cfg a s off idle = elim (Bool-cases (pins cfg)) [
  | inl p ↦ inr (inl (ground (arith, p)))
  | inr p ↦ elim (Option-cases (get_bool a s.row false)) [
    | inl q ↦ inl (ground (arith, p, q), inl (ground (arith, p, idle)))
    | inr (false, q) ↦ inl (ground (arith, p, q), inl (ground (arith, p, idle)))
    | inr (true, q) ↦ elim (get_bool-on a s.row false q) [
      | inl e ↦ absurd (ground (arith, e))
      | inr on ↦ inr (inr on)
    ]
  ]
]

-- From the start of a process on, whatever admins set, other processes write, and whichever reads and
-- writes fail, and with others between the read and the store of a refresh: if the cached flag is on,
-- the environment pins it, or the stored row has read as on at the start or after some event.
pub after_init-RowWasOn :
    (cfg : Option Config) (a : Access) (s : Switch) (es : List Event)
    → s.enforcement ≡ false
    → s.reading ≡ none
    → (after es (init_enforcement cfg a s)).enforcement ≡ true
    → ((after es (init_enforcement cfg a s)).env_pinned ≡ true)
      ⊎ (RowOn s ⊎ RowWasOn es (init_enforcement cfg a s))
after_init-RowWasOn cfg a s es off idle on =
    elim (after-Warranted (RowOn s) es (init_enforcement cfg a s)
      (init-Warranted cfg a s off idle)) [
        | inl (not_on, _) ↦ absurd (ground (arith, not_on, on))
        | inr x ↦ x
      ]
