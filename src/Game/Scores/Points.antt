-- ===== src/Game/Scores/Points.antt =====
-- An answer that counts and the clean-up keep the books.
use koviobe.Base.{
  ℕ, ◌+◌, ◌%◌, ◌<◌, ◌≡◌, ◌≢◌, inl, inr, refl, sym, ap, ◌∙◌, Bool, true, false, not, some, List, [],
  ◌∷◌, find, select, update_where, ◌==◌, if◌then◌else◌, word, arith, Bool-cases, find_sound,
}
use koviobe.Base.Rows.{All-map, All-update_where, All-select, All-find, find-update_where-some}
use koviobe.Model.Game.{Room, Player, AnswerLog, GameStore}
use koviobe.Game.Tables.{player_is}
use koviobe.Game.Finish.{log_in}
use koviobe.Game.Scores.{Balances-intro, Balances-elim, earned, Fair, Sound}
use koviobe.Game.Moves.{is_live}

earned_dropped :
    (gone room player : ℕ) (logs : List AnswerLog)
    → (room == gone) ≡ false
    → earned room player (select (λ l. not (log_in gone l)) logs) ≡ earned room player logs
unfolding earned select
earned_dropped gone room player [] h = refl
earned_dropped gone room player (l ∷ ls) h = ground (arith, h, earned_dropped gone room player ls h)

-- A room that is open is not one that is closed.
open_other :
    (rooms : List Room) (a b : ℕ)
    → is_live rooms a ≡ true
    → is_live rooms b ≡ false
    → (a == b) ≡ false
open_other rooms a b o c = elim (Bool-cases (a == b)) [
  | inr e ↦ e
  | inl e ↦
      let same : a ≡ b = ground (arith, e) in absurd (ground (arith, o, c, ap (is_live rooms) same))
]

pub logs_dropped-Sound :
    (s : GameStore) (room : ℕ)
    → is_live s.rooms room ≡ false
    → Sound s
    → Sound (record s { answer_logs = select (λ l. not (log_in room l)) s.answer_logs })
logs_dropped-Sound s room closed h =
    let stays : AnswerLog → Bool = λ l. not (log_in room l) in
    let logs = select stays s.answer_logs in
    let F = Fair s.players s.rooms s.answer_logs s.next_player s.next_room in
    let G = Fair s.players s.rooms logs s.next_player s.next_room in
    record {
      players =
          All-map F G
            (λ x p. record {
              found = p.found;
              known = p.known;
              lodged = p.lodged;
              scored = Balances-intro _ _ _ λ o.
                  let other : (x.room_id == room) ≡ false =
                    open_other s.rooms x.room_id room o closed in
                  rw (earned_dropped room x.room_id x.id s.answer_logs other)
                    (Balances-elim _ _ _ p.scored o);
            })
            s.players h.players;
      logs =
          All-map (λ l. (l.player_id < s.next_player) × (stays l ≡ true))
            (λ l. l.player_id < s.next_player) (λ l k. k.0) logs
            (All-select (λ l. l.player_id < s.next_player) stays s.answer_logs h.logs);
      rooms = h.rooms;
    }

only_row :
    (players : List Player) (id : ℕ) (y x : Player)
    → find (player_is y.id) players ≡ some y
    → find (player_is id) players ≡ some x
    → y.id ≡ id
    → y ≡ x
only_row players id y x a b same =
    let at : find (player_is id) players ≡ some y =
      ap (λ i. find (player_is i) players) (sym same) ∙ a in
    ground (arith, at, b)

earned_other :
    (y : Player) (l : AnswerLog) (logs : List AnswerLog)
    → y.id ≢ l.player_id
    → earned y.room_id y.id (l ∷ logs) ≡ earned y.room_id y.id logs
unfolding earned
earned_other y l logs other = ground (arith, other)

-- The row of a player whose answer has been counted.
answered-Fair :
    (players players' : List Player) (rooms : List Room) (logs : List AnswerLog) (n m : ℕ)
    (x y : Player) (l : AnswerLog)
    → Fair players rooms logs n m x
    → (y.id ≡ x.id) × (y.room_id ≡ x.room_id)
    → find (player_is x.id) players' ≡ some y
    → l.room_id ≡ x.room_id
    → l.player_id ≡ x.id
    → y.score % word ≡ (x.score + l.points_earned) % word
    → Fair players' rooms (l ∷ logs) n m y
answered-Fair players players' rooms logs n m x y l p (a, b) at home named sum =
    let more : earned x.room_id x.id (l ∷ logs) ≡ l.points_earned + earned x.room_id x.id logs =
      unfold earned in ground (arith, home, named) in
    record {
      found = ap (λ i. find (player_is i) players') a ∙ at;
      known = omega (arith, a, p.known);
      lodged = omega (arith, b, p.lodged);
      scored =
          rw (a, b)
            (Balances-intro _ _ _ λ o. omega (arith, sum, more, Balances-elim _ _ _ p.scored o));
    }

pub answer_counts-Sound :
    (s : GameStore) (x : Player) (f : Player → Player) (l : AnswerLog)
    → find (player_is l.player_id) s.players ≡ some x
    → x.room_id ≡ l.room_id
    → ((y : Player) → ((f y).id ≡ y.id) × ((f y).room_id ≡ y.room_id))
    → (f x).score % word ≡ (x.score + l.points_earned) % word
    → Sound s
    → Sound (record s {
      players = update_where (player_is l.player_id) f s.players;
      answer_logs = l ∷ s.answer_logs;
    })
answer_counts-Sound s x f l row home keep sum h =
    let q = player_is l.player_id in
    let players = update_where q f s.players in
    let logs = l ∷ s.answer_logs in
    let F = Fair s.players s.rooms s.answer_logs s.next_player s.next_room in
    let G = Fair players s.rooms logs s.next_player s.next_room in
    let seen : (y : Player)
        → find (player_is y.id) s.players ≡ some y
        → find (player_is y.id) players ≡ some (if q y then f y else y) =
      λ y p.
        find-update_where-some (player_is y.id) q f (λ z _. ground (arith, keep z)) s.players y p in
    let named : x.id ≡ l.player_id = ground (arith, find_sound q s.players x row) in
    let own : F x = All-find F q s.players x h.players row in
    let raised : G (f x) =
      answered-Fair s.players players s.rooms s.answer_logs s.next_player s.next_room x (f x) l own
        (keep x) (ground (arith, seen x own.found, named)) (sym home) (sym named) sum in
    record {
      players =
          All-update_where F G q f
            (λ y p. elim (Bool-cases (q y)) [
              | inl e ↦
                  let same : y ≡ x =
                    only_row s.players l.player_id y x p.found row (ground (arith, e)) in
                  rw (e, same) raised
              | inr e ↦ rw e (record {
                found = ground (arith, seen y p.found, e);
                known = p.known;
                lodged = p.lodged;
                scored = Balances-intro _ _ _ λ o.
                    rw (earned_other y l s.answer_logs (ground (arith, e)))
                      (Balances-elim _ _ _ p.scored o);
              })
            ])
            s.players h.players;
      logs = (rw (← named) own.known, h.logs);
      rooms = h.rooms;
    }
