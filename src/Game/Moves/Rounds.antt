-- ===== src/Game/Moves/Rounds.antt =====
-- NextQuestion, EndQuestion and GetPlayerQuestion are moves.
use koviobe.Base.{
  ℕ, ◌≡◌, inl, inr, refl, Option, List, [], ◌∷◌, ok, arith, Result-cases, Option-cases, Bool-cases,
  ltb, count, not, ◌||◌, add_int,
}
use koviobe.Model.Errors.{Faults, update_room, update_player, find_questions, count_answers}
use koviobe.Model.Game.{Room, Player, Question, GameStore}
use koviobe.Game.Tables.{is_active, update_room_row, quiz_questions, player_paced}
use koviobe.Game.Lobby.{PlayerClaims}
use koviobe.Game.Rounds.{
  activate, open_question, running_room, choose_next, next_question, end_question, close_it,
}
use koviobe.Game.Ask.{
  ensure_assigned, assign_first, start_clock, solo_question, asks_for, asked_question,
  get_player_question, Asked, fetch, read_player, has_question, answer_of,
}
use koviobe.Game.Moves.{
  Moves, no_move, one-Move, Moves-trans, run, run-Moves, Edge, Move.room_changes,
  Move.player_changes,
}

pub activate-Moves :
    (down : Faults) (now room index : ℕ) (q : Question) (s s' : GameStore)
    → activate down now room index q s ≡ ok (tt, s')
    → Moves s s'
unfolding activate
activate-Moves down now room index q s s' h =
    let e : s' ≡ update_room_row room (open_question now index q) s = ground (arith, h) in
    rw e (one-Move (room_changes s room _ (λ r k. k) (λ r k. Edge.stays r.status)))

running_room-store :
    (down : Faults) (host id : ℕ) (s : GameStore) (r : Room) (s' : GameStore)
    → running_room down host id s ≡ ok (r, s')
    → s' ≡ s
unfolding running_room
running_room-store down host id s r s' h = ground (arith, h)

next_question-ok :
    (down : Faults) (now host id : ℕ) (s : GameStore) (q : Question) (s' : GameStore)
    → next_question down now host id s ≡ ok (q, s')
    → Moves s s'
unfolding next_question choose_next
next_question-ok down now host id s q s' h = elim (Result-cases (running_room down host id s)) [
  | inl (e, p) ↦ absurd (ground (arith, h, p))
  | inr ((r, s₁), p) ↦
      let same = running_room-store down host id s r s₁ p in
      let k : activate down now r.id (add_int r.current_question_index 1) q s ≡ ok (tt, s') =
        ground (arith, h, p, same) in
      activate-Moves down now r.id _ q s s' k
]

pub next_question-Moves :
    (down : Faults) (now host id : ℕ) (s : GameStore)
    → Moves s (run (next_question down now host id) s)
next_question-Moves down now host id s =
    run-Moves (next_question down now host id) s
      (λ q s' h. next_question-ok down now host id s q s' h)

end_question-ok :
    (down : Faults) (host id : ℕ) (s : GameStore) (top : List Player) (s' : GameStore)
    → end_question down host id s ≡ ok (top, s')
    → Moves s s'
unfolding end_question
end_question-ok down host id s top s' h = elim (Result-cases (running_room down host id s)) [
  | inl (e, p) ↦ absurd (ground (arith, h, p))
  | inr ((r, s₁), p) ↦
      let same = running_room-store down host id s r s₁ p in
      elim (Bool-cases (down (update_room r.id))) [
        | inl off ↦ let e : s' ≡ s = ground (arith, h, p, same, off) in rw e (no_move s)
        | inr on ↦
            let e : s' ≡ update_room_row r.id close_it s = ground (arith, h, p, same, on) in
            rw e (one-Move (room_changes s r.id _ (λ r k. k) (λ r k. Edge.stays r.status)))
      ]
]

pub end_question-Moves :
    (down : Faults) (host id : ℕ) (s : GameStore) → Moves s (run (end_question down host id) s)
end_question-Moves down host id s =
    run-Moves (end_question down host id) s (λ top s' h. end_question-ok down host id s top s' h)

assign_first-Moves :
    (down : Faults) (p : Player) (qs : List Question) (s : GameStore)
    → Moves s (assign_first down p qs s).1
assign_first-Moves down p [] s = no_move s
assign_first-Moves down p (q ∷ qs) s = elim (Bool-cases (down (update_player p.id))) [
  | inl off ↦ rw off (no_move s)
  | inr on ↦ rw on (one-Move (player_changes s _ _ (λ x. (refl, refl, refl))))
]

ensure_assigned-Moves :
    (down : Faults) (room : Room) (p : Player) (s : GameStore)
    → Moves s (ensure_assigned down room p s).1
unfolding ensure_assigned
ensure_assigned-Moves down room p s =
    elim (Bool-cases (
      has_question p.current_question_id
      || not (is_active room.status)
      || down (count_answers p.id)
      || ltb 0 (count (answer_of room.id p.id) s.answer_logs)
      || down (find_questions room.quiz_id))) [
        | inl off ↦ rw (ensure_assigned, off) (no_move s)
        | inr on ↦
            rw (ensure_assigned, on) (assign_first-Moves down p (quiz_questions room.quiz_id s) s)
      ]

start_clock-Moves :
    (down : Faults) (now : ℕ) (q : Question) (p : Player) (s : GameStore)
    → Moves s (start_clock down now q p s).1
unfolding start_clock
start_clock-Moves down now q p s = elim (Option-cases p.question_active_until) [
  | inr (until, e) ↦ rw (start_clock, e) (no_move s)
  | inl e ↦ elim (Bool-cases (down (update_player p.id))) [
    | inl off ↦ rw (start_clock, e, off) (no_move s)
    | inr on ↦ rw (start_clock, e, on) (one-Move (player_changes s _ _ (λ x. (refl, refl, refl))))
  ]
]

solo_question-Moves :
    (down : Faults) (now : ℕ) (room : Room) (q : Question) (row : Player) (s : GameStore)
    → Moves s (solo_question down now room q row s).1
unfolding solo_question
solo_question-Moves down now room q row s =
    let first = ensure_assigned-Moves down room row s in
    elim (Result-cases (asks_for (ensure_assigned down room row s).0.current_question_id q.id)) [
      | inl (e, p) ↦ rw (solo_question, p) first
      | inr (u, p) ↦
          rw (solo_question, p)
            (Moves-trans first (
              start_clock-Moves down now q (ensure_assigned down room row s).0
                (ensure_assigned down room row s).1))
    ]

fetch-Moves :
    (down : Faults) (now : ℕ) (x : Asked) (index : ℕ) (s : GameStore)
    → Moves s (fetch down now x index s).1
unfolding fetch
fetch-Moves down now x index s = elim (Bool-cases (player_paced x.room.game_mode)) [
  | inr led ↦ let e : (fetch down now x index s).1 ≡ s = ground (arith, led) in rw e (no_move s)
  | inl solo ↦ elim (Option-cases (read_player down x.token.player_id s)) [
    | inl gone ↦ rw (fetch, solo, gone) (no_move s)
    | inr (p, here) ↦ rw (fetch, solo, here) (solo_question-Moves down now x.room x.question p s)
  ]
]

pub get_player_question-Moves :
    (down : Faults) (now : ℕ) (token : Option PlayerClaims) (room index : ℕ) (s : GameStore)
    → Moves s (get_player_question down now token room index s).1
unfolding get_player_question asked_question
get_player_question-Moves down now token room index s =
    elim (Result-cases (asked_question down token room index s)) [
      | inl (e, p) ↦ rw (get_player_question, p) (no_move s)
      | inr ((x, s₁), p) ↦
          let same : s₁ ≡ s = ground (arith, p) in
          rw (get_player_question, p)
            (Moves-trans (rw same (no_move s)) (fetch-Moves down now x index s₁))
    ]
