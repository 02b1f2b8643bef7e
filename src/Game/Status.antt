-- ===== src/Game/Status.antt =====
-- The life of a room as an abstract machine, which every step of the game implements: a room waits,
-- then runs, then has finished, and skips at most the middle.
use koviobe.Base.{
  ℕ, ◌≡◌, ◌<◌, inl, inr, sym, ap, ◌∙◌, true, Option, none, some, find, arith, Option-cases,
  Bool-cases, find_sound, List, update_where,
}
use koviobe.Base.Rows.{find-update_where-some}
use koviobe.Model.Game.{Room, RoomStatus, GameStore}
use koviobe.Game.Tables.{room_is, update_room_row, update_players, remove_players}
use koviobe.Game.Moves.{
  Edge, Edge.stays, Edge.starts, Edge.closes, Edge.ends, Move, Move.room_changes, Move.room_opens,
  Move.player_changes, Move.player_joins, Move.player_leaves, Move.answer_counts,
  Move.game_archived, Move.logs_dropped, Move.claims_change, Moves_keep,
}
use koviobe.Game.Steps.{Reach, Reach-Moves}

-- The status that the table has for a room.
unfoldable pub status_of : List Room → ℕ → Option RoomStatus
status_of rooms id = elim (find (room_is id) rooms) [ none ↦ none | some r ↦ some r.status ]

Edge-trans : (a b c : RoomStatus) → Edge a b → Edge b c → Edge a c
Edge-trans a b c (stays st) e = e
Edge-trans a b c starts (stays st) = starts
Edge-trans a b c starts ends = closes
Edge-trans a b c closes (stays st) = closes
Edge-trans a b c ends (stays st) = ends

-- A room of the table has gone along the machine's edges.
abbrev pub Follows : ℕ → RoomStatus → GameStore → Type 0
Follows id before s =
    (st : RoomStatus) × (status_of s.rooms id ≡ some st) × Edge before st × (id < s.next_room)

status_of-update_where :
    (rooms : List Room) (id : ℕ) (f : Room → Room) (i : ℕ) (st : RoomStatus)
    → ((r : Room) → r.id ≡ id → (f r).id ≡ id)
    → ((r : Room) → find (room_is id) rooms ≡ some r → Edge r.status (f r).status)
    → status_of rooms i ≡ some st
    → (st' : RoomStatus) × (status_of (update_where (room_is id) f rooms) i ≡ some st')
      × Edge st st'
unfolding status_of
status_of-update_where rooms id f i st keep edge h =
    let same : (r : Room) → room_is id r ≡ true → room_is i (f r) ≡ room_is i r =
      λ r e. ground (arith, e, keep r) in
    elim (Option-cases (find (room_is i) rooms)) [
      | inl p ↦ absurd (ground (arith, h, p))
      | inr (r, p) ↦
          let after = find-update_where-some (room_is i) (room_is id) f same rooms r p in
          let was : r.status ≡ st = ground (arith, h, p) in
          elim (Bool-cases (room_is id r)) [
            | inr e ↦ (st, ground (arith, after, e, was), Edge.stays st)
            | inl e ↦
                let at : i ≡ id = ground (arith, e, find_sound (room_is i) rooms r p) in
                let moved : Edge r.status (f r).status =
                  edge r (ap (λ k. find (room_is k) rooms) (sym at) ∙ p) in
                ((f r).status, ground (arith, after, e), rw (← was) moved)
          ]
    ]

Move-Follows :
    (id : ℕ) (before : RoomStatus) (s t : GameStore)
    → Move s t
    → Follows id before s
    → Follows id before t
unfolding update_room_row update_players remove_players status_of
Move-Follows id before s t (room_changes u room f keep edge) (st, now, e, k) =
    let (st', later, moved) = status_of-update_where u.rooms room f id st keep edge now in
    (st', later, Edge-trans before st st' e moved, k)
Move-Follows id before s t (room_opens u r new waits) (st, now, e, k) =
    (st, unfold find in ground (arith, now, new, k), e, omega (arith, k))
Move-Follows id before s t (player_changes u q f same) h = h
Move-Follows id before s t (player_joins u r x found lobby new zero) h = h
Move-Follows id before s t (player_leaves u q) h = h
Move-Follows id before s t (answer_counts u r x f l found runs row home new keep sum) h = h
Move-Follows id before s t (game_archived u g new) h = h
Move-Follows id before s t (logs_dropped u room closed) h = h
Move-Follows id before s t (claims_change u cs) h = h

-- The handlers implement the abstract machine: a room that is in the table, with an id that the
-- counter has given out, is still in it after any number of steps, and its status is the one it had
-- or one that the machine goes to from there: never out of `finished`, and never back to `waiting`.
pub Reach-refines :
    (s t : GameStore) (id : ℕ) (st : RoomStatus)
    → Reach s t
    → status_of s.rooms id ≡ some st
    → id < s.next_room
    → (st' : RoomStatus) × (status_of t.rooms id ≡ some st') × Edge st st'
Reach-refines s t id st r now given =
    let (st', later, moved, _) =
      Moves_keep (Follows id st) (Move-Follows id st) (Reach-Moves r)
        (st, now, Edge.stays st, given) in
    (st', later, moved)
