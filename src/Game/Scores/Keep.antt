-- ===== src/Game/Scores/Keep.antt =====
-- A change of a room's row, a new room, and a change of players' rows keep the books.
use koviobe.Base.{
  ℕ, suc, ◌<◌, ◌≡◌, ◌≢◌, inl, inr, refl, sym, ap, ◌∙◌, Bool, true, false, some, List, ◌∷◌, find,
  update_where, if◌then◌else◌, arith, Option-cases, Bool-cases, find_sound,
}
use koviobe.Base.Rows.{All-map, All-update_where, find-update_where-none, find-update_where-some}
use koviobe.Model.Game.{Room, RoomStatus, Player, GameStore}
use koviobe.Game.Tables.{room_is, player_is, is_finished, update_room_row, update_players}
use koviobe.Game.Scores.{Balances-intro, Balances-elim, Fair, Sound}
use koviobe.Game.Moves.{is_live, Edge, Edge.stays, Edge.starts, Edge.closes, Edge.ends}

Edge-unfinished : (a b : RoomStatus) → Edge a b → is_finished b ≡ false → is_finished a ≡ false
Edge-unfinished a b (stays st) h = h
Edge-unfinished a b starts h = refl
Edge-unfinished a b closes h = refl
Edge-unfinished a b ends h = refl

-- A room that is open after its row has changed was open before.
is_live-update_where :
    (rooms : List Room) (id : ℕ) (f : Room → Room) (i : ℕ)
    → ((r : Room) → r.id ≡ id → (f r).id ≡ id)
    → ((r : Room) → find (room_is id) rooms ≡ some r → Edge r.status (f r).status)
    → is_live (update_where (room_is id) f rooms) i ≡ true
    → is_live rooms i ≡ true
unfolding is_live
is_live-update_where rooms id f i keep edge h =
    let same : (r : Room) → room_is id r ≡ true → room_is i (f r) ≡ room_is i r =
      λ r e. ground (arith, e, keep r) in
    elim (Option-cases (find (room_is i) rooms)) [
      | inl p ↦
          absurd (ground (arith, h, find-update_where-none (room_is i) (room_is id) f same rooms p))
      | inr (r, p) ↦
          let after = find-update_where-some (room_is i) (room_is id) f same rooms r p in
          elim (Bool-cases (room_is id r)) [
            | inr e ↦ ground (arith, h, p, after, e)
            | inl e ↦
                let at : i ≡ id = ground (arith, e, find_sound (room_is i) rooms r p) in
                let moved : Edge r.status (f r).status =
                  edge r (ap (λ k. find (room_is k) rooms) (sym at) ∙ p) in
                let alive : is_finished (f r).status ≡ false = ground (arith, h, after, e) in
                ground (arith, p, Edge-unfinished r.status (f r).status moved alive)
          ]
    ]

is_live-cons :
    (r : Room) (rooms : List Room) (i : ℕ)
    → r.id ≢ i
    → is_live (r ∷ rooms) i ≡ true
    → is_live rooms i ≡ true
unfolding is_live find
is_live-cons r rooms i other h = ground (arith, h, other)

-- The change of a room's row.
pub room_changes-Sound :
    (s : GameStore) (id : ℕ) (f : Room → Room)
    → ((r : Room) → r.id ≡ id → (f r).id ≡ id)
    → ((r : Room) → find (room_is id) s.rooms ≡ some r → Edge r.status (f r).status)
    → Sound s
    → Sound (update_room_row id f s)
unfolding update_room_row
room_changes-Sound s id f keep edge h =
    let rooms = update_where (room_is id) f s.rooms in
    record {
      players =
          All-map (Fair s.players s.rooms s.answer_logs s.next_player s.next_room)
            (Fair s.players rooms s.answer_logs s.next_player s.next_room)
            (λ x p. record {
              found = p.found;
              known = p.known;
              lodged = p.lodged;
              scored = Balances-intro _ _ _ λ o.
                  Balances-elim _ _ _ p.scored
                    (is_live-update_where s.rooms id f x.room_id keep edge o);
            })
            s.players h.players;
      logs = h.logs;
      rooms =
          All-update_where (λ r. r.id < s.next_room) (λ r. r.id < s.next_room) (room_is id) f
            (λ r k. elim (Bool-cases (room_is id r)) [
              | inl e ↦ ground (arith, e, k, keep r)
              | inr e ↦ ground (arith, e, k)
            ])
            s.rooms h.rooms;
    }

pub room_opens-Sound :
    (s : GameStore) (r : Room)
    → r.id ≡ s.next_room
    → Sound s
    → Sound (record s { rooms = r ∷ s.rooms; next_room = suc s.next_room })
room_opens-Sound s r new h = record {
  players =
      All-map (Fair s.players s.rooms s.answer_logs s.next_player s.next_room)
        (Fair s.players (r ∷ s.rooms) s.answer_logs s.next_player (suc s.next_room))
        (λ x p. record {
          found = p.found;
          known = p.known;
          lodged = omega (arith, p.lodged);
          scored = Balances-intro _ _ _ λ o.
              Balances-elim _ _ _ p.scored
                (is_live-cons r s.rooms x.room_id (omega (arith, p.lodged, new)) o);
        })
        s.players h.players;
  logs = h.logs;
  rooms = (
    omega (arith, new),
    All-map (λ x. x.id < s.next_room) (λ x. x.id < suc s.next_room) (λ x k. omega (arith, k))
        s.rooms h.rooms,
  );
}

pub player_changes-Sound :
    (s : GameStore) (q : Player → Bool) (f : Player → Player)
    → ((x : Player) → ((f x).id ≡ x.id) × ((f x).room_id ≡ x.room_id) × ((f x).score ≡ x.score))
    → Sound s
    → Sound (update_players q f s)
unfolding update_players
player_changes-Sound s q f same h =
    let players = update_where q f s.players in
    let F = Fair s.players s.rooms s.answer_logs s.next_player s.next_room in
    let G = Fair players s.rooms s.answer_logs s.next_player s.next_room in
    let seen : (x : Player)
        → find (player_is x.id) s.players ≡ some x
        → find (player_is x.id) players ≡ some (if q x then f x else x) =
      λ x p.
        find-update_where-some (player_is x.id) q f (λ y _. ground (arith, same y)) s.players x p in
    record {
      players =
          All-update_where F G q f
            (λ x p. elim (Bool-cases (q x)) [
              | inl e ↦
                  let (a, b, c) = same x in
                  let at : find (player_is x.id) players ≡ some (f x) =
                    ground (arith, seen x p.found, e) in
                  rw e (record {
                    found = ap (λ i. find (player_is i) players) a ∙ at;
                    known = omega (arith, a, p.known);
                    lodged = omega (arith, b, p.lodged);
                    scored = rw (a, b, c) p.scored;
                  })
              | inr e ↦
                  let at : find (player_is x.id) players ≡ some x =
                    ground (arith, seen x p.found, e) in
                  rw e
                    (record { found = at; known = p.known; lodged = p.lodged; scored = p.scored })
            ])
            s.players h.players;
      logs = h.logs;
      rooms = h.rooms;
    }
