-- ===== src/Game/Moves/Start.antt =====
-- StartGame and UpdateRoomPrivacy are moves.
use koviobe.Base.{
  ap, ◌∙◌, [], ◌==◌, ◌&&◌, ℕ, ◌≡◌, inl, inr, refl, Bool, true, not, some, List, ◌∷◌, find, ok,
  arith, Result-cases, Option-cases, Bool-cases, find_sound,
}
use koviobe.Model.Errors.{find_questions, Faults}
use koviobe.Model.Game.{Question, Room, GameStore}
use koviobe.Game.Tables.{
  quiz_questions, hosted_room, player_paced, update_room_row, sits_in, room_is, is_waiting,
  update_players, remove_players,
}
use koviobe.Game.Lobby.{
  deal_head, deal, started, start_tx, start_game, deal_first, update_room_privacy,
}
use koviobe.Game.Moves.Lobby.{is_waiting_sound}
use koviobe.Game.Moves.{
  run, run-Moves, Edge, Moves-trans, one-Move, transaction-Moves, Move.room_changes,
  Move.player_changes, Moves, no_move, Move.player_leaves,
}

pub hosted_room-store :
    (down : Faults) (host id : ℕ) (s : GameStore) (r : Room) (s' : GameStore)
    → hosted_room down host id s ≡ ok (r, s')
    → s' ≡ s
hosted_room-store down host id s r s' h = ground (arith, h)

deal_first-Moves :
    (down : Faults) (r : Room) (s s' : GameStore) → deal_first down r s ≡ ok (tt, s') → Moves s s'
unfolding deal_first
deal_first-Moves down r s s' h = elim (Bool-cases (down (find_questions r.quiz_id))) [
  | inl off ↦ let e : s' ≡ s = ground (arith, h, off) in rw e (no_move s)
  | inr on ↦
      let k : deal_head down r.id (quiz_questions r.quiz_id s) s ≡ ok (tt, s') =
        ground (arith, h, on) in
      dealt (quiz_questions r.quiz_id s) k
]
  where
    dealt : (qs : List Question) → deal_head down r.id qs s ≡ ok (tt, s') → Moves s s'
    dealt [] k = let e : s' ≡ s = ground (arith, k) in rw e (no_move s)
    dealt (q ∷ qs) k =
        let e : s' ≡ update_players (sits_in r.id) (deal q.id) s = ground (arith, k) in
        rw e (one-Move (player_changes s _ _ (λ x. (refl, refl, refl))))

started_room-Moves :
    (s : GameStore) (room : ℕ) (l : Room)
    → find (room_is room) s.rooms ≡ some l
    → is_waiting l.status ≡ true
    → Moves s (update_room_row l.id (λ _. started l) s)
started_room-Moves s room l found lobby =
    let id : l.id ≡ room = ground (arith, find_sound (room_is room) s.rooms l found) in
    let here : find (room_is l.id) s.rooms ≡ some l =
      ap (λ i. find (room_is i) s.rooms) id ∙ found in
    one-Move (
      room_changes s l.id (λ _. started l) (λ r _. refl)
        (λ r e.
          let same : r ≡ l = ground (arith, e, here) in
          rw (same, is_waiting_sound l.status lobby) Edge.starts))

start_tx-Moves :
    (down : Faults) (room : Room) (s : GameStore) (r : Room) (s' : GameStore)
    → start_tx down room s ≡ ok (r, s')
    → Moves s s'
unfolding start_tx
start_tx-Moves down room s r s' h = elim (Option-cases (find (room_is room.id) s.rooms)) [
  | inl none_there ↦ absurd (ground (arith, h, none_there))
  | inr (l, found) ↦
      let lobby : is_waiting l.status ≡ true = ground (arith, h, found) in
      let s₁ = remove_players (λ p. p.room_id == l.id && not p.is_connected) s in
      let s₂ = update_room_row l.id (λ _. started l) s₁ in
      let first : Moves s s₁ = one-Move (player_leaves s _) in
      let both : Moves s s₂ = Moves-trans first (started_room-Moves s₁ room.id l found lobby) in
      elim (Bool-cases (player_paced room.game_mode)) [
        | inl solo ↦
            let k : deal_first down l s₂ ≡ ok (tt, s') = ground (arith, h, found, lobby, solo) in
            Moves-trans both (deal_first-Moves down l s₂ s' k)
        | inr led ↦ let e : s' ≡ s₂ = ground (arith, h, found, lobby, led) in rw e both
      ]
]

pub start_game-Moves :
    (down : Faults) (host id : ℕ) (s : GameStore) → Moves s (start_game down host id s).1
unfolding start_game
start_game-Moves down host id s = elim (Result-cases (hosted_room down host id s)) [
  | inl (e, p) ↦ rw (start_game, p) (no_move s)
  | inr ((room, s₁), p) ↦
      let same : s₁ ≡ s = hosted_room-store down host id s room s₁ p in
      elim (Bool-cases (is_waiting room.status)) [
        | inl lobby ↦
            rw (start_game, p, lobby, same)
              (transaction-Moves down (start_tx down room) s
                (λ r s' k. start_tx-Moves down room s r s' k))
        | inr other ↦ rw (start_game, p, other, same) (no_move s)
      ]
]

update_room_privacy-ok :
    (down : Faults) (host id : ℕ) (private : Bool) (s s' : GameStore)
    → update_room_privacy down host id private s ≡ ok (tt, s')
    → Moves s s'
unfolding update_room_privacy
update_room_privacy-ok down host id private s s' h =
    elim (Result-cases (hosted_room down host id s)) [
      | inl (e, p) ↦ absurd (ground (arith, h, p))
      | inr ((room, s₁), p) ↦
          let same : s₁ ≡ s = hosted_room-store down host id s room s₁ p in
          let e : s' ≡ update_room_row room.id (λ r. record r { is_private = private }) s =
            ground (arith, h, p, same) in
          rw e (one-Move (room_changes s room.id _ (λ r k. k) (λ r k. Edge.stays r.status)))
    ]

pub update_room_privacy-Moves :
    (down : Faults) (host id : ℕ) (private : Bool) (s : GameStore)
    → Moves s (run (update_room_privacy down host id private) s)
update_room_privacy-Moves down host id private s =
    run-Moves (update_room_privacy down host id private) s
      (λ _ s' h. update_room_privacy-ok down host id private s s' h)
