-- ===== src/Game/Lobby/Seats.antt =====
-- The cap on the players of a room holds for everyone who joins.
use koviobe.Base.{
  some, ap, sym, ◌∙◌, text_eq, ℕ, suc, ◌≤◌, ◌<◌, ◌≡◌, inl, inr, true, false, ◌||◌, none, ◌∷◌, find,
  count, ok, Text, arith, Result-cases, Option-cases, find_sound, is_negative, leb,
}
use koviobe.Model.Errors.{Faults}
use koviobe.Model.Game.{Room, Player, GameStore}
use koviobe.License.Plans.{Setting, get_entitlements}
use koviobe.Model.Store.{Store, transaction}
use koviobe.Model.Rollback.{transaction-ok}
use koviobe.Game.Tables.{room_is}
use koviobe.Game.Lobby.{
  seat_limit, JoinRoomReq, new_player, has_nickname, is_seated, insert_new_player, seat,
  free_nickname, joined_room, join_limited, join_room, host_limit,
}

insert_new_player-ok :
    (down : Faults) (room : ℕ) (name : Text) (s : GameStore) (p : Player) (s' : GameStore)
    → insert_new_player down room name s ≡ ok (p, s')
    → (find (has_nickname room name) s.players ≡ none)
      × (p ≡ new_player s.next_player room name)
      × (s' ≡ record s { players = p ∷ s.players; next_player = suc s.next_player })
unfolding insert_new_player
insert_new_player-ok down room name s p s' h =
    elim (Option-cases (find (has_nickname room name) s.players)) [
      | inr (x, k) ↦ absurd (ground (arith, h, k))
      | inl k ↦
          let same : p ≡ new_player s.next_player room name = ground (arith, h, k) in
          (k, same, rw same (ground (arith, h, k)))
    ]

seat_capped :
    (down : Faults) (limit room : ℕ) (name : Text) (s : GameStore) (p : Player) (s' : GameStore)
    → seat down true limit room name s ≡ ok (p, s')
    → (p.room_id ≡ room) × (count (is_seated room) s'.players ≤ limit)
unfolding seat seat_limit
seat_capped down limit room name s p s' h = elim (Option-cases (find (room_is room) s.rooms)) [
  | inl k ↦ absurd (ground (arith, h, k))
  | inr (r, k) ↦
      let named : r.id ≡ room = ground (arith, find_sound (room_is room) s.rooms r k) in
      let free : (is_negative limit || leb limit (count (is_seated r.id) s.players)) ≡ false =
        ground (arith, h, k) in
      let put : insert_new_player down room name s ≡ ok (p, s') = ground (arith, h, k, free) in
      let (_, same, after) = insert_new_player-ok down room name s p s' put in
      let counted : count (is_seated room) s'.players ≤ suc (count (is_seated room) s.players) =
        rw after (unfold count in ground arith) in
      let room_left : count (is_seated room) s.players < limit =
        rw (← named) (ground (arith, free)) in
      (ground (arith, same), omega (arith, counted, room_left))
]

join_limited_capped :
    (down : Faults) (limit_of : ℕ → ℕ) (req : JoinRoomReq) (s : GameStore) (p : Player)
    (s' : GameStore)
    → join_limited down true limit_of req s ≡ (ok p, s')
    → (r : Room) × (find (λ x. text_eq x.pin_code req.pin_code) s.rooms ≡ some r)
      × (p.room_id ≡ r.id)
      × (count (is_seated r.id) s'.players ≤ limit_of r.host_id)
unfolding join_limited joined_room
join_limited_capped down limit_of req s p s' h =
    elim (Option-cases (find (λ x. text_eq x.pin_code req.pin_code) s.rooms)) [
      | inl k ↦ absurd (ground (arith, h, k))
      | inr (r, k) ↦ elim (Result-cases (joined_room down req.pin_code s)) [
        | inl (e, g) ↦ absurd (ground (arith, h, g))
        | inr ((r', s₁), g) ↦
            let same : r' ≡ r = ground (arith, k, g) in
            elim (Result-cases (free_nickname down r'.id req.nickname s₁)) [
              | inl (e, q) ↦ absurd (ground (arith, h, g, q))
              | inr ((u, s₂), q) ↦
                  let body = seat down true (limit_of r'.host_id) r'.id req.nickname in
                  let done : transaction down body s₂ ≡ (ok p, s') = ground (arith, h, g, q) in
                  let (home, capped) =
                    seat_capped down (limit_of r'.host_id) r'.id req.nickname s₂ p s'
                      (transaction-ok down body s₂ p s' done) in
                  (r, k, home ∙ ap (λ x. x.id) same, rw (← same) capped)
            ]
      ]
    ]

run_on :
    (m : Setting) (req : JoinRoomReq) (s : GameStore) (tables : Store) (p : Player) (s' : GameStore)
    (tables' : Store)
    → m.enforcing ≡ true
    → join_room m req s tables ≡ (ok p, s', tables')
    → join_limited m.down true (host_limit m tables) req s ≡ (ok p, s')
unfolding join_room
run_on m req s tables p s' tables' on h =
    let v = join_limited m.down m.enforcing (host_limit m tables) req s in
    let both : (v.0, v.1) ≡ (ok p, s') = ap (λ x. (x.0, x.1)) h in
    ap (λ b. join_limited m.down b (host_limit m tables) req s) (sym on) ∙ both

-- While licences are enforced, a join that succeeds leaves at most as many connected players in the
-- room with the PIN as the plan of its host allows, by the limits read at the join and however many
-- were there before.
pub join_room_capped :
    (m : Setting) (req : JoinRoomReq) (s : GameStore) (tables : Store) (p : Player) (s' : GameStore)
    (tables' : Store)
    → m.enforcing ≡ true
    → join_room m req s tables ≡ (ok p, s', tables')
    → (r : Room) × (find (λ x. text_eq x.pin_code req.pin_code) s.rooms ≡ some r)
      × (p.room_id ≡ r.id)
      × (count (is_seated r.id) s'.players
          ≤ (get_entitlements m.down m.now m.config m.seats true r.host_id
              tables).0.max_players_per_room)
unfolding join_room
join_room_capped m req s tables p s' tables' on h =
    let (r, named, home, capped) =
      join_limited_capped m.down (host_limit m tables) req s p s'
        (run_on m req s tables p s' tables' on h) in
    (r, named, home, rw (← on) capped)
