-- ===== src/Game/Scores/Seats.antt =====
-- A player who joins or leaves keeps the books.
use koviobe.Base.{
  ℕ, suc, ◌<◌, ◌≡◌, refl, Bool, true, not, some, List, [], ◌∷◌, find, select, arith, find_sound,
}
use koviobe.Base.Rows.{All, All-map, All-select, All-find, find-select}
use koviobe.Model.Game.{Room, Player, AnswerLog, GameStore}
use koviobe.Game.Tables.{room_is, player_is, remove_players}
use koviobe.Game.Scores.{Balances-intro, earned, Fair, Sound}

earned-none :
    (room player : ℕ) (logs : List AnswerLog)
    → All (λ l. l.player_id < player) logs
    → earned room player logs ≡ 0
unfolding earned
earned-none room player [] a = refl
earned-none room player (l ∷ ls) (k, a) = ground (arith, k, earned-none room player ls a)

pub player_joins-Sound :
    (s : GameStore) (r : Room) (x : Player)
    → find (room_is x.room_id) s.rooms ≡ some r
    → x.id ≡ s.next_player
    → x.score ≡ 0
    → Sound s
    → Sound (record s { players = x ∷ s.players; next_player = suc s.next_player })
unfolding find
player_joins-Sound s r x found new zero h =
    let F = Fair s.players s.rooms s.answer_logs s.next_player s.next_room in
    let G = Fair (x ∷ s.players) s.rooms s.answer_logs (suc s.next_player) s.next_room in
    let there = All-find (λ y. y.id < s.next_room) (room_is x.room_id) s.rooms r h.rooms found in
    let named = find_sound (room_is x.room_id) s.rooms r found in
    let none_yet = earned-none x.room_id x.id s.answer_logs (
      All-map (λ l. l.player_id < s.next_player) (λ l. l.player_id < x.id)
        (λ l k. omega (arith, k, new)) s.answer_logs h.logs) in
    record {
      players = (
        record {
          found = ground arith;
          known = omega (arith, new);
          lodged = ground (arith, there, named);
          scored = Balances-intro _ _ _ λ _. omega (arith, zero, none_yet);
        },
        All-map F G
            (λ y p. record {
              found = ground (arith, p.found, p.known, new);
              known = omega (arith, p.known);
              lodged = p.lodged;
              scored = p.scored;
            })
            s.players h.players,
      );
      logs =
          All-map (λ l. l.player_id < s.next_player) (λ l. l.player_id < suc s.next_player)
            (λ l k. omega (arith, k)) s.answer_logs h.logs;
      rooms = h.rooms;
    }

pub player_leaves-Sound : (s : GameStore) (q : Player → Bool) → Sound s → Sound (remove_players q s)
unfolding remove_players
player_leaves-Sound s q h =
    let stays : Player → Bool = λ x. not (q x) in
    let players = select stays s.players in
    let F = Fair s.players s.rooms s.answer_logs s.next_player s.next_room in
    let G = Fair players s.rooms s.answer_logs s.next_player s.next_room in
    record {
      players =
          All-map (λ x. F x × (stays x ≡ true)) G
            (λ x p. record {
              found = find-select (player_is x.id) stays s.players x p.0.found p.1;
              known = p.0.known;
              lodged = p.0.lodged;
              scored = p.0.scored;
            })
            players (All-select F stays s.players h.players);
      logs = h.logs;
      rooms = h.rooms;
    }
