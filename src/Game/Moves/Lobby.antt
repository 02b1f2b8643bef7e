-- ===== src/Game/Moves/Lobby.antt =====
-- The handlers of the lobby are moves.
use koviobe.Base.{
  if◌then◌else◌, ◌||◌, ◌==◌, ◌&&◌, ℕ, suc, ◌≡◌, inl, inr, refl, Text, Bool, true, false, not,
  Option, none, some, ◌∷◌, find, ok, arith, Result-cases, Option-cases, Bool-cases,
}
use koviobe.Model.Errors.{find_room, update_player, find_nickname, Faults}
use koviobe.Model.Game.{Room, RoomStatus, Player, GameStore, waiting}
use koviobe.Game.Tables.{room_is, is_waiting, update_players, remove_players}
use koviobe.Game.Lobby.{
  is_member, stays_seated, has_nickname, leave_room, reconnect_player, PlayerClaims, JoinRoomReq,
  new_player, insert_new_player, seat, free_nickname, joined_room, join_limited,
}
use koviobe.Game.Moves.{
  run, run-Moves, Moves-trans, one-Move, transaction-Moves, Move.player_changes, Moves, no_move,
  ◌then_move◌, Move.player_joins, Move.player_leaves,
}

pub is_waiting_sound : (st : RoomStatus) → is_waiting st ≡ true → st ≡ waiting
is_waiting_sound waiting h = refl
is_waiting_sound RoomStatus.active h = absurd (ground (arith, h))
is_waiting_sound RoomStatus.finished h = absurd (ground (arith, h))

insert_new_player-Moves :
    (down : Faults) (r : Room) (room : ℕ) (name : Text) (s : GameStore) (p : Player)
    (s' : GameStore)
    → find (room_is room) s.rooms ≡ some r
    → r.status ≡ waiting
    → insert_new_player down room name s ≡ ok (p, s')
    → Moves s s'
unfolding insert_new_player
insert_new_player-Moves down r room name s p s' found lobby h =
    let x = new_player s.next_player room name in
    let e : s' ≡ record s { players = x ∷ s.players; next_player = suc s.next_player } =
      ground (arith, h) in
    rw e (no_move s then_move player_joins s r x found lobby refl refl)

pub seat-Moves :
    (down : Faults) (enforcing : Bool) (limit room : ℕ) (name : Text) (s : GameStore) (p : Player)
    (s' : GameStore)
    → seat down enforcing limit room name s ≡ ok (p, s')
    → Moves s s'
unfolding seat
seat-Moves down enforcing limit room name s p s' h =
    elim (Option-cases (find (room_is room) s.rooms)) [
      | inl none_there ↦ absurd (ground (arith, h, none_there))
      | inr (r, found) ↦
          let lobby : is_waiting r.status ≡ true = ground (arith, h, found) in
          let put : insert_new_player down room name s ≡ ok (p, s') =
            ground (arith, h, found, lobby) in
          insert_new_player-Moves down r room name s p s' found (is_waiting_sound r.status lobby)
            put
    ]

free_nickname-Moves :
    (down : Faults) (room : ℕ) (name : Text) (s : GameStore) (s' : GameStore)
    → free_nickname down room name s ≡ ok (tt, s')
    → Moves s s'
unfolding free_nickname
free_nickname-Moves down room name s s' h =
    elim (Option-cases (find (has_nickname room name) s.players)) [
      | inl free ↦ let e : s' ≡ s = ground (arith, h, free) in rw e (no_move s)
      | inr (x, held) ↦ elim (Bool-cases (down find_nickname)) [
        | inl off ↦ let e : s' ≡ s = ground (arith, h, held, off) in rw e (no_move s)
        | inr on ↦
            let e : s' ≡ remove_players (λ y. y.id == x.id && not y.is_connected) s =
              ground (arith, h, held, on) in
            rw e (one-Move (player_leaves s _))
      ]
    ]

joined_room-store :
    (down : Faults) (pin : Text) (s : GameStore) (r : Room) (s' : GameStore)
    → joined_room down pin s ≡ ok (r, s')
    → s' ≡ s
unfolding joined_room
joined_room-store down pin s r s' h = ground (arith, h)

pub join_limited-Moves :
    (down : Faults) (enforcing : Bool) (limit_of : ℕ → ℕ) (req : JoinRoomReq) (s : GameStore)
    → Moves s (join_limited down enforcing limit_of req s).1
unfolding join_limited
join_limited-Moves down enforcing limit_of req s =
    elim (Result-cases (joined_room down req.pin_code s)) [
      | inl (e, p) ↦ rw (join_limited, p) (no_move s)
      | inr ((r, s₁), p) ↦
          let same = joined_room-store down req.pin_code s r s₁ p in
          elim (Result-cases (free_nickname down r.id req.nickname s₁)) [
            | inl (e, q) ↦ rw (join_limited, p, q, same) (no_move s)
            | inr ((u, s₂), q) ↦
                let freed = free_nickname-Moves down r.id req.nickname s₁ s₂ q in
                rw (join_limited, p, q)
                  (Moves-trans (rw (← same) freed) (
                    transaction-Moves down
                      (seat down enforcing (limit_of r.host_id) r.id req.nickname) s₂
                      (λ a s' k.
                        seat-Moves down enforcing (limit_of r.host_id) r.id req.nickname s₂ a s'
                          k)))
          ]
    ]

leave_room-ok :
    (down : Faults) (token : Option PlayerClaims) (room : ℕ) (unload : Bool) (s s' : GameStore)
    → leave_room down token room unload s ≡ ok (tt, s')
    → Moves s s'
unfolding leave_room
leave_room-ok down none room unload s s' h = absurd (ground (arith, h))
leave_room-ok down (some t) room unload s s' h =
    elim (Bool-cases
      (stays_seated unload (if down (find_room room) then none else find (room_is room) s.rooms))) [
        | inl stay ↦
            let e : s' ≡ update_players (is_member t) (λ p. record p { is_connected = false }) s =
              ground (arith, h, stay) in
            rw e (one-Move (player_changes s _ _ (λ x. (refl, refl, refl))))
        | inr go ↦
            let e : s' ≡ remove_players (is_member t) s = ground (arith, h, go) in
            rw e (one-Move (player_leaves s _))
      ]

pub leave_room-Moves :
    (down : Faults) (token : Option PlayerClaims) (room : ℕ) (unload : Bool) (s : GameStore)
    → Moves s (run (leave_room down token room unload) s)
leave_room-Moves down token room unload s =
    run-Moves (leave_room down token room unload) s
      (λ _ s' h. leave_room-ok down token room unload s s' h)

pub reconnect_player-Moves :
    (down : Faults) (p : Player) (s : GameStore) → Moves s (reconnect_player down p s)
unfolding reconnect_player
reconnect_player-Moves down p s = elim (Bool-cases (p.is_connected || down (update_player p.id))) [
  | inl off ↦ rw off (no_move s)
  | inr on ↦ rw on (one-Move (player_changes s _ _ (λ x. (refl, refl, refl))))
]
