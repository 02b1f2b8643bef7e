-- ===== src/Game/Podium.antt =====
-- The result of a game: once it is archived, nothing that follows changes it.
use koviobe.Base.{
  length, ℕ, ◌≡◌, ◌<◌, inl, inr, refl, sym, ap, ◌∙◌, true, false, none, some, find, arith,
  Option-cases, Result-cases, Bool-cases, find_sound, List, ◌∷◌, ok,
}
use koviobe.Base.Rows.{find-update_where-some}
use koviobe.Model.Errors.{insert_session, Faults, find_room, update_room, find_session}
use koviobe.Model.Game.{Room, RoomStatus, EndReason, GameSession, FinalRanking, GameStore, finished}
use koviobe.Game.Tables.{room_is, is_finished, update_room_row, update_players, remove_players}
use koviobe.Game.Finish.{
  session, roster, session_of, archived_rankings, archive_game_logs, Finalized, close_room,
  claim_room, taken_room, finalize_room, Sorter, finished_room,
}
use koviobe.Game.Moves.{
  Edge, Edge.stays, Edge.starts, Edge.closes, Edge.ends, Move, Move.room_changes, Move.room_opens,
  Move.player_changes, Move.player_joins, Move.player_leaves, Move.answer_counts,
  Move.game_archived, Move.logs_dropped, Move.claims_change, Moves_keep,
}
use koviobe.Game.Status.{status_of, Reach-refines}
use koviobe.Game.Steps.{Reach, Reach-Moves}

abbrev pub Archived : ℕ → GameSession → GameStore → Type 0
Archived room g s = find (session_of room) s.sessions ≡ some g

Move-Archived :
    (room : ℕ) (g : GameSession) (s t : GameStore)
    → Move s t
    → Archived room g s
    → Archived room g t
unfolding update_room_row update_players remove_players
Move-Archived room g s t (room_changes u id f keep edge) h = h
Move-Archived room g s t (room_opens u r new waits) h = h
Move-Archived room g s t (player_changes u q f same) h = h
Move-Archived room g s t (player_joins u r x found lobby new zero) h = h
Move-Archived room g s t (player_leaves u q) h = h
Move-Archived room g s t (answer_counts u r x f l found runs row home new keep sum) h = h
Move-Archived room g s t (game_archived u k new) h = elim (Bool-cases (session_of room k)) [
  | inr e ↦ unfold find in ground (arith, e, h)
  | inl e ↦
      let same : k.room_id ≡ room = ground (arith, e) in
      let none_there : find (session_of room) u.sessions ≡ none = rw (← same) new in
      absurd (ground (arith, h, none_there))
]
Move-Archived room g s t (logs_dropped u id closed) h = h
Move-Archived room g s t (claims_change u cs) h = h

Edge-finished_stays : (b st : RoomStatus) → Edge b st → b ≡ finished → st ≡ finished
Edge-finished_stays b st (stays x) h = h
Edge-finished_stays b st starts h = absurd (ground (arith, h))
Edge-finished_stays b st closes h = refl
Edge-finished_stays b st ends h = refl

archived-session :
    (down : Faults) (now : ℕ) (r : Room) (rankings : List FinalRanking) (n : ℕ) (s s' : GameStore)
    → archive_game_logs down now r rankings n s ≡ (true, s')
    → (g : GameSession) × (find (session_of r.id) s'.sessions ≡ some g)
      × (g.rankings ≡ rankings)
      × (s'.rooms ≡ s.rooms)
      × (s'.next_room ≡ s.next_room)
unfolding archive_game_logs
archived-session down now r rankings n s s' h =
    elim (Option-cases (find (session_of r.id) s.sessions)) [
      | inr (g, p) ↦ absurd (ground (arith, h, p))
      | inl p ↦ elim (Bool-cases (down (insert_session r.id))) [
        | inl off ↦ absurd (ground (arith, h, p, off))
        | inr on ↦
            let g = session now r rankings n in
            let e : s' ≡ record s { sessions = g ∷ s.sessions } = ground (arith, h, p, on) in
            (g, rw e (unfold find in ground arith), refl, rw e refl, rw e refl)
      ]
    ]

taken_room_mine :
    (down : Faults) (room : ℕ) (reason : EndReason) (s : GameStore) (r : Room) (s' : GameStore)
    → taken_room down room reason s ≡ ok ((r, true), s')
    → (find (room_is room) s.rooms ≡ some r) × (s' ≡ update_room_row room (finished_room reason) s)
unfolding taken_room claim_room
taken_room_mine down room reason s r s' h = elim (Option-cases (find (room_is room) s.rooms)) [
  | inl p ↦ absurd (ground (arith, h, p))
  | inr (x, p) ↦ elim (Bool-cases (is_finished x.status)) [
    | inl e ↦ absurd (ground (arith, h, p, e))
    | inr e ↦ let same : r ≡ x = ground (arith, h, p, e) in (rw same p, ground (arith, h, p, e))
  ]
]

status_of-finished :
    (room : ℕ) (reason : EndReason) (s : GameStore) (r : Room)
    → find (room_is room) s.rooms ≡ some r
    → status_of (update_room_row room (finished_room reason) s).rooms room ≡ some finished
unfolding status_of update_room_row
status_of-finished room reason s r p =
    let after =
      find-update_where-some (room_is room) (room_is room) (finished_room reason) (λ x e. refl)
        s.rooms r p in
    ground (arith, after, find_sound (room_is room) s.rooms r p)

-- What a call of finalizeRoom that finishes the room and archives it leaves behind.
finalize_room_archives :
    (down : Faults) (now : ℕ) (sorted : Sorter) (room : ℕ) (reason : EndReason) (s : GameStore)
    (z : Finalized) (s' : GameStore)
    → finalize_room down now sorted room reason s ≡ (ok z, s')
    → z.cleans_up ≡ true
    → (g : GameSession) × Archived room g s'
      × (g.rankings ≡ z.rankings)
      × (status_of s'.rooms room ≡ some finished)
      × (s'.next_room ≡ s.next_room)
unfolding finalize_room close_room update_room_row
finalize_room_archives down now sorted room reason s z s' h done =
    elim (Result-cases (taken_room down room reason s)) [
      | inl (e, p) ↦ absurd (ground (arith, h, p))
      | inr (((r, mine), s₁), p) ↦ elim (Bool-cases mine) [
        | inr theirs ↦ absurd (ground (arith, h, p, theirs, done))
        | inl won ↦
            let (found, claimed) = taken_room_mine down room reason s r s₁ (rw (← won) p) in
            let named : r.id ≡ room = ground (arith, find_sound (room_is room) s.rooms r found) in
            let n = length (roster down r.id s₁) in
            let wrote : archive_game_logs down now r z.rankings n s₁ ≡ (true, s') =
              ground (arith, h, p, won, done) in
            let (g, kept, lines, rooms, ids) =
              archived-session down now r z.rankings n s₁ s' wrote in
            (
              g,
              ap (λ i. find (session_of i) s'.sessions) (sym named) ∙ kept,
              lines,
              rw (rooms, claimed) (status_of-finished room reason s r found),
              ids ∙ ap (λ u. u.next_room) claimed,
            )
      ]
    ]

-- finalizeRoom on a room that has finished and has been archived.
finalize_room_again :
    (down : Faults) (now : ℕ) (sorted : Sorter) (room : ℕ) (reason : EndReason) (t : GameStore)
    (g : GameSession)
    → Archived room g t
    → status_of t.rooms room ≡ some finished
    → down (find_room room) ≡ false
    → down (update_room room) ≡ false
    → down (find_session room) ≡ false
    → finalize_room down now sorted room reason t
      ≡ (ok (record { rankings = g.rankings; already_ended = true; cleans_up = false }), t)
unfolding finalize_room taken_room claim_room status_of archived_rankings
finalize_room_again down now sorted room reason t g kept over a b c =
    elim (Option-cases (find (room_is room) t.rooms)) [
      | inl p ↦ absurd (ground (arith, over, p))
      | inr (r, p) ↦
          let named : r.id ≡ room = ground (arith, find_sound (room_is room) t.rooms r p) in
          let ended : r.status ≡ finished = ground (arith, over, p) in
          let kept' : find (session_of r.id) t.sessions ≡ some g =
            ap (λ i. find (session_of i) t.sessions) named ∙ kept in
          let c' : down (find_session r.id) ≡ false = ap (λ i. down (find_session i)) named ∙ c in
          ground (arith, p, ended, a, b, kept', c')
    ]

-- When finalizeRoom has finished a room and archived its rankings, then however the game goes on,
-- every later call on the room answers with those rankings, reports that the room had ended, and
-- changes no table, provided that its reads and its claim go through.
pub finalize_room_kept :
    (down down' : Faults) (now now' : ℕ) (sorted sorted' : Sorter) (room : ℕ)
    (reason reason' : EndReason) (s t : GameStore) (z : Finalized)
    → room < s.next_room
    → (finalize_room down now sorted room reason s).0 ≡ ok z
    → z.cleans_up ≡ true
    → Reach (finalize_room down now sorted room reason s).1 t
    → down' (find_room room) ≡ false
    → down' (update_room room) ≡ false
    → down' (find_session room) ≡ false
    → finalize_room down' now' sorted' room reason' t
      ≡ (ok (record { rankings = z.rankings; already_ended = true; cleans_up = false }), t)
finalize_room_kept down down' now now' sorted sorted' room reason reason' s t z given h done r a b
      c =
    let u = (finalize_room down now sorted room reason s).1 in
    let (g, kept, lines, over, ids) =
      finalize_room_archives down now sorted room reason s z u (ap (λ x. (x, u)) h) done in
    let (st, later, moved) = Reach-refines u t room finished r over (omega (arith, given, ids)) in
    let still : st ≡ finished = Edge-finished_stays finished st moved refl in
    let kept' = Moves_keep (Archived room g) (Move-Archived room g) (Reach-Moves r) kept in
    rw (← lines)
      (finalize_room_again down' now' sorted' room reason' t g kept' (rw (← still) later) a b c)
