-- ===== src/Game/Moves/Finish.antt =====
-- The claim of a room, its closing and its clean-up are moves, and so is finalizeRoom.
use koviobe.Base.{
  ℕ, ◌≡◌, ◌⊎◌, inl, inr, Bool, true, false, List, find, ok, arith, Result-cases, Option-cases,
  Bool-cases, map, length,
}
use koviobe.Model.Errors.{Faults, delete_players, delete_answers, insert_session}
use koviobe.Model.Game.{Room, RoomStatus, EndReason, FinalRanking, GameStore, finished}
use koviobe.Game.Tables.{sits_in, update_room_row, hosted_room}
use koviobe.Game.Finish.{
  finished_room, claim_room, taken_room, archive_game_logs, close_room, Sorter, finalize_room,
  finish_taken, end_game, clean_up, session_of, ranking, roster,
}
use koviobe.Game.Moves.{
  Moves, no_move, ◌then_move◌, one-Move, Moves-trans, Edge, Move.room_changes, Move.player_leaves,
  Move.game_archived, Move.logs_dropped, is_live,
}
use koviobe.Game.Moves.Start.{hosted_room-store}

Edge-finished : (st : RoomStatus) → Edge st finished
Edge-finished RoomStatus.waiting = Edge.closes
Edge-finished RoomStatus.active = Edge.ends
Edge-finished finished = Edge.stays finished

pub claim_room-ok :
    (down : Faults) (room : ℕ) (reason : EndReason) (s : GameStore) (mine : Bool) (s' : GameStore)
    → claim_room down room reason s ≡ ok (mine, s')
    → (s' ≡ s) ⊎ (s' ≡ update_room_row room (finished_room reason) s)
unfolding claim_room
claim_room-ok down room reason s mine s' h = ground (arith, h)

pub claim_room-Moves :
    (down : Faults) (room : ℕ) (reason : EndReason) (s : GameStore) (mine : Bool) (s' : GameStore)
    → claim_room down room reason s ≡ ok (mine, s')
    → Moves s s'
claim_room-Moves down room reason s mine s' h = elim (claim_room-ok down room reason s mine s' h) [
  | inl e ↦ rw e (no_move s)
  | inr e ↦ rw e (one-Move (room_changes s room _ (λ r k. k) (λ r k. Edge-finished r.status)))
]

pub archive_game_logs-Moves :
    (down : Faults) (now : ℕ) (r : Room) (rankings : List FinalRanking) (n : ℕ) (s : GameStore)
    → Moves s (archive_game_logs down now r rankings n s).1
unfolding archive_game_logs
archive_game_logs-Moves down now r rankings n s =
    elim (Option-cases (find (session_of r.id) s.sessions)) [
      | inr (g, p) ↦ rw (archive_game_logs, p) (no_move s)
      | inl p ↦ elim (Bool-cases (down (insert_session r.id))) [
        | inl off ↦ rw (archive_game_logs, p, off) (no_move s)
        | inr on ↦ rw (archive_game_logs, p, on) (one-Move (game_archived s _ p))
      ]
    ]

pub close_room-Moves :
    (down : Faults) (now : ℕ) (sorted : Sorter) (r : Room) (s : GameStore)
    → Moves s (close_room down now sorted r s).1
unfolding close_room
close_room-Moves down now sorted r s =
    archive_game_logs-Moves down now r (sorted (map (ranking down r.id s) (roster down r.id s)))
      (length (roster down r.id s)) s

finish_taken-Moves :
    (down : Faults) (now : ℕ) (sorted : Sorter) (r : Room) (mine : Bool) (s : GameStore)
    → Moves s (finish_taken down now sorted r mine s).1
finish_taken-Moves down now sorted r true s = close_room-Moves down now sorted r s
finish_taken-Moves down now sorted r false s = no_move s

taken_room-Moves :
    (down : Faults) (room : ℕ) (reason : EndReason) (s : GameStore) (r : Room) (mine : Bool)
    (s' : GameStore)
    → taken_room down room reason s ≡ ok ((r, mine), s')
    → Moves s s'
unfolding taken_room
taken_room-Moves down room reason s r mine s' h =
    elim (Result-cases (claim_room down room reason s)) [
      | inl (e, p) ↦ absurd (ground (arith, h, p))
      | inr ((b, s₁), p) ↦
          let e : s' ≡ s₁ = ground (arith, h, p) in
          rw e (claim_room-Moves down room reason s b s₁ p)
    ]

pub finalize_room-Moves :
    (down : Faults) (now : ℕ) (sorted : Sorter) (room : ℕ) (reason : EndReason) (s : GameStore)
    → Moves s (finalize_room down now sorted room reason s).1
unfolding finalize_room
finalize_room-Moves down now sorted room reason s =
    elim (Result-cases (taken_room down room reason s)) [
      | inl (e, p) ↦ rw (finalize_room, p) (no_move s)
      | inr (((r, mine), s₁), p) ↦
          rw (finalize_room, p)
            (Moves-trans (taken_room-Moves down room reason s r mine s₁ p)
              (finish_taken-Moves down now sorted r mine s₁))
    ]

pub end_game-Moves :
    (down : Faults) (now : ℕ) (sorted : Sorter) (host room : ℕ) (s : GameStore)
    → Moves s (end_game down now sorted host room s).1
unfolding end_game
end_game-Moves down now sorted host room s = elim (Result-cases (hosted_room down host room s)) [
  | inl (e, p) ↦ rw (end_game, p) (no_move s)
  | inr ((r, s₁), p) ↦
      let same = hosted_room-store down host room s r s₁ p in
      rw (end_game, p, same) (finalize_room-Moves down now sorted r.id _ s)
]

-- The clean-up of a room that has finished.
pub clean_up-Moves :
    (down : Faults) (room : ℕ) (s : GameStore)
    → is_live s.rooms room ≡ false
    → Moves s (clean_up down room s)
unfolding clean_up
clean_up-Moves down room s closed = elim (Bool-cases (down (delete_players room))) [
  | inl off ↦ elim (Bool-cases (down (delete_answers room))) [
    | inl off' ↦ rw (clean_up, off, off') (no_move s)
    | inr on' ↦ rw (clean_up, off, on') (one-Move (logs_dropped s room closed))
  ]
  | inr on ↦
      let first = one-Move (player_leaves s (sits_in room)) in
      elim (Bool-cases (down (delete_answers room))) [
        | inl off' ↦ rw (clean_up, on, off') first
        | inr on' ↦ rw (clean_up, on, on') (first then_move logs_dropped _ room closed)
      ]
]
