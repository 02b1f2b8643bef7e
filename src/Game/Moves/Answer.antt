-- ===== src/Game/Moves/Answer.antt =====
-- SubmitAnswer is a sequence of moves: the mark in Redis, and one answer that counts.
use koviobe.Base.{
  ℕ, ◌+◌, ◌≡◌, inl, inr, refl, sym, ap, ◌∙◌, ◌%◌, Bool, true, false, not, ◌&&◌, Option, none, some,
  List, ◌∷◌, find, update_where, ok, err, Result, arith, Result-cases, Option-cases, Bool-cases,
  find_sound, word,
}
use koviobe.Model.Errors.{Error, Faults, set_claim, delete_claim}
use koviobe.Model.Game.{Room, Player, Question, AnswerLog, GameStore, active}
use koviobe.Model.Store.{transaction}
use koviobe.Game.Scoring.{Judge, evaluate_answer}
use koviobe.Game.Tables.{quiz_questions, room_is, player_is, player_paced}
use koviobe.Game.Lobby.{PlayerClaims}
use koviobe.Game.Answer.{
  SubmitAnswerReq, Answered, Claim, claimed, repeated, unavailable, is_claim, claim_answer,
  release_answer, is_answer, answer_log, next_of, advanced, answer_solo, raise, answer_classic,
}
use koviobe.Game.Answer.Effect.{
  SoloAnswer, answer_solo-SoloAnswer, ClassicAnswer, answer_classic-ClassicAnswer,
}
use koviobe.Game.Rounds.{has_id}
use koviobe.Game.Submit.{
  find_any, Submission, submission, answer_tx, settle_claim, record_answer, submit_claimed,
  was_answered, submit_answer, is_repeat,
}
use koviobe.Game.Moves.{
  Moves, no_move, one-Move, Moves-trans, transaction-Moves, Move.answer_counts, Move.claims_change,
}

-- One answer that counts: the change of a player's row, and the row in the log.
counted :
    (s : GameStore) (r : Room) (x : Player) (f : Player → Player) (l : AnswerLog) (s' : GameStore)
    → find (room_is l.room_id) s.rooms ≡ some r
    → r.status ≡ active
    → find (player_is l.player_id) s.players ≡ some x
    → x.room_id ≡ l.room_id
    → find (is_answer l.player_id l.question_id) s.answer_logs ≡ none
    → ((y : Player) → ((f y).id ≡ y.id) × ((f y).room_id ≡ y.room_id))
    → (f x).score % word ≡ (x.score + l.points_earned) % word
    → s' ≡ record s {
      players = update_where (player_is l.player_id) f s.players;
      answer_logs = l ∷ s.answer_logs;
    }
    → Moves s s'
counted s r x f l s' a b c d e k m p = rw p (one-Move (answer_counts s r x f l a b c d e k m))

solo-Moves :
    (now : ℕ) (correct : Bool) (t : PlayerClaims) (room : ℕ) (q : Question) (qs : List Question)
    (req : SubmitAnswerReq) (s : GameStore) (a : Answered) (s' : GameStore)
    → room ≡ t.room_id
    → SoloAnswer now correct t room q qs req s a s'
    → Moves s s'
solo-Moves now correct t room q qs req s a s' own z =
    let x = z.player in
    let named : x.id ≡ t.player_id =
      ground (arith, find_sound (player_is t.player_id) s.players x z.row) in
    let row : find (player_is x.id) s.players ≡ some x =
      ap (λ i. find (player_is i) s.players) named ∙ z.row in
    counted s z.locked x (advanced a.score (next_of req.question_id qs))
      (answer_log room x.id req a.marked) s' z.room_row z.running row (z.home ∙ sym own) z.fresh
      (λ y. (refl, refl)) (omega (arith, z.score_after)) z.after

classic-Moves :
    (now : ℕ) (correct : Bool) (t : PlayerClaims) (room : ℕ) (q : Question) (req : SubmitAnswerReq)
    (s : GameStore) (a : Answered) (s' : GameStore)
    → ClassicAnswer now correct t room q req s a s'
    → Moves s s'
classic-Moves now correct t room q req s a s' z =
    let w = z.recorded in
    counted s z.locked w.row (raise a.marked.points_earned)
      (answer_log room t.player_id req a.marked) s' z.room_row z.running w.found w.home w.fresh
      (λ y. (refl, refl)) refl w.after

find_any-store :
    (down : Faults) (id : ℕ) (o : Option Question) (s : GameStore) (q : Question) (s' : GameStore)
    → find_any down id o s ≡ ok (q, s')
    → s' ≡ s
find_any-store down id none s q s' h = ground (arith, h)
find_any-store down id (some x) s q s' h = ground (arith, h)

pub submission-ok :
    (down : Faults) (token : Option PlayerClaims) (req : SubmitAnswerReq) (s : GameStore)
    (x : Submission) (s' : GameStore)
    → submission down token req s ≡ ok (x, s')
    → (s' ≡ s) × (x.room.id ≡ x.token.room_id)
unfolding submission
submission-ok down none req s x s' h = absurd (ground (arith, h))
submission-ok down (some t) req s x s' h = elim (Option-cases (find (room_is t.room_id) s.rooms)) [
  | inl p ↦ absurd (ground (arith, h, p))
  | inr (r, p) ↦
      let o = find (has_id req.question_id) (quiz_questions r.quiz_id s) in
      elim (Result-cases (find_any down req.question_id o s)) [
        | inl (e, k) ↦ absurd (ground (arith, h, p, k))
        | inr ((q, s₁), k) ↦
            let same = find_any-store down req.question_id o s q s₁ k in
            let room : x.room ≡ r = ground (arith, h, p, k) in
            let token : x.token ≡ t = ground (arith, h, p, k) in
            (
              ground (arith, h, p, k, same),
              rw (room, token) (ground (arith, find_sound (room_is t.room_id) s.rooms r p)),
            )
      ]
]

answer_tx-Moves :
    (down : Faults) (now : ℕ) (j : Judge) (req : SubmitAnswerReq) (x : Submission) (s : GameStore)
    (a : Answered) (s' : GameStore)
    → x.room.id ≡ x.token.room_id
    → answer_tx down now j req x s ≡ ok (a, s')
    → Moves s s'
unfolding answer_tx
answer_tx-Moves down now j req x s a s' own h =
    let correct = evaluate_answer j x.question req.selected_option in
    elim (Bool-cases (player_paced x.room.game_mode)) [
      | inl solo ↦
          let k : answer_solo down now correct x.token x.room.id x.question x.questions req s
              ≡ ok (a, s') =
            ground (arith, h, solo) in
          solo-Moves now correct x.token x.room.id x.question x.questions req s a s' own (
            answer_solo-SoloAnswer down now correct x.token x.room.id x.question x.questions req s a
              s' k)
      | inr led ↦
          let k : answer_classic down now correct x.token x.room.id x.question req s ≡ ok (a, s') =
            ground (arith, h, led) in
          classic-Moves now correct x.token x.room.id x.question req s a s' (
            answer_classic-ClassicAnswer down now correct x.token x.room.id x.question req s a s' k)
    ]

release_answer-Moves :
    (down : Faults) (player question : ℕ) (s : GameStore)
    → Moves s (release_answer down player question s)
unfolding release_answer
release_answer-Moves down player question s = elim (Bool-cases (down delete_claim)) [
  | inl off ↦ rw (release_answer, off) (no_move s)
  | inr on ↦ rw (release_answer, on) (one-Move (claims_change s _))
]

settle_claim-Moves :
    (down : Faults) (mine : Bool) (req : SubmitAnswerReq) (x : Submission)
    (r : Result Error Answered) (s : GameStore)
    → Moves s (settle_claim down mine req x (r, s)).1
unfolding settle_claim
settle_claim-Moves down mine req x (ok a) s = no_move s
settle_claim-Moves down mine req x (err e) s = elim (Bool-cases (mine && not (is_repeat e))) [
  | inl frees ↦
      rw (settle_claim, frees) (release_answer-Moves down x.token.player_id req.question_id s)
  | inr keeps ↦ rw (settle_claim, keeps) (no_move s)
]

record_answer-Moves :
    (down : Faults) (now : ℕ) (j : Judge) (req : SubmitAnswerReq) (x : Submission) (mine : Bool)
    (s : GameStore)
    → x.room.id ≡ x.token.room_id
    → Moves s (record_answer down now j req x mine s).1
unfolding record_answer
record_answer-Moves down now j req x mine s own =
    let body = answer_tx down now j req x in
    Moves-trans
      (transaction-Moves down body s (λ a s' h. answer_tx-Moves down now j req x s a s' own h))
      (settle_claim-Moves down mine req x (transaction down body s).0 (transaction down body s).1)

claim_answer-Moves :
    (down : Faults) (player question : ℕ) (s : GameStore)
    → Moves s (claim_answer down player question s).1
unfolding claim_answer
claim_answer-Moves down player question s = elim (Bool-cases (down set_claim)) [
  | inl off ↦ rw (claim_answer, off) (no_move s)
  | inr on ↦ elim (Option-cases (find (is_claim player question) s.claims)) [
    | inl p ↦ rw (claim_answer, on, p) (one-Move (claims_change s _))
    | inr (c, p) ↦ rw (claim_answer, on, p) (no_move s)
  ]
]

submit_claimed-Moves :
    (down : Faults) (now : ℕ) (j : Judge) (req : SubmitAnswerReq) (x : Submission) (c : Claim)
    (s : GameStore)
    → x.room.id ≡ x.token.room_id
    → Moves s (submit_claimed down now j req x c s).1
submit_claimed-Moves down now j req x claimed s own =
    record_answer-Moves down now j req x true s own
submit_claimed-Moves down now j req x repeated s own = no_move s
submit_claimed-Moves down now j req x unavailable s own =
    elim (Bool-cases (was_answered down x.token.player_id req.question_id s)) [
      | inl before ↦ rw before (no_move s)
      | inr not_yet ↦ rw not_yet (record_answer-Moves down now j req x false s own)
    ]

pub submit_answer-Moves :
    (down : Faults) (now : ℕ) (j : Judge) (token : Option PlayerClaims) (req : SubmitAnswerReq)
    (s : GameStore)
    → Moves s (submit_answer down now j token req s).1
unfolding submit_answer
submit_answer-Moves down now j token req s = elim (Result-cases (submission down token req s)) [
  | inl (e, p) ↦ rw (submit_answer, p) (no_move s)
  | inr ((x, s₁), p) ↦
      let (same, own) = submission-ok down token req s x s₁ p in
      let c = claim_answer down x.token.player_id req.question_id s₁ in
      rw (submit_answer, p)
        (Moves-trans (rw same (no_move s)) (
          Moves-trans (claim_answer-Moves down x.token.player_id req.question_id s₁)
            (submit_claimed-Moves down now j req x c.0 c.1 own)))
]
