-- ===== src/Game/Submit/Retry.antt =====
-- An answer that is refused leaves no trace, so the player can send it again.
use koviobe.Base.{
  ◌≡◌, ◌⊎◌, inl, inr, refl, ap, ◌∙◌, Bool, true, false, not, Option, none, List, [], ◌∷◌, find,
  select, err, arith, Result-cases, Option-cases, Bool-cases, ℕ,
}
use koviobe.Model.Errors.{Error, Faults, set_claim, delete_claim}
use koviobe.Model.Game.{AnswerClaim, GameStore}
use koviobe.Model.Rollback.{transaction-cases}
use koviobe.Game.Scoring.{Judge}
use koviobe.Game.Lobby.{PlayerClaims}
use koviobe.Game.Answer.{SubmitAnswerReq, is_claim, claim_answer, release_answer}
use koviobe.Game.Moves.Answer.{submission-ok}
use koviobe.Game.Submit.{
  Submission, submission, answer_tx, settle_claim, record_answer, submit_claimed, was_answered,
  submit_answer, is_repeat,
}

select-none :
    (p : AnswerClaim → Bool) (cs : List AnswerClaim)
    → find p cs ≡ none
    → select (λ c. not (p c)) cs ≡ cs
unfolding find select
select-none p [] h = refl
select-none p (c ∷ cs) h = ground (arith, h, select-none p cs)

released :
    (player question : ℕ) (c : AnswerClaim) (cs : List AnswerClaim)
    → is_claim player question c ≡ true
    → find (is_claim player question) cs ≡ none
    → select (λ d. not (is_claim player question d)) (c ∷ cs) ≡ cs
unfolding select
released player question c cs mark fresh =
    ground (arith, mark, select-none (is_claim player question) cs fresh)

-- What an error leaves: everything as it was; or every table, and a mark that is right to stand, or
-- that Redis did not delete.
abbrev pub Undone : Faults → Error → GameStore → GameStore → Type 0
Undone down e s s' =
    (s' ≡ s)
    ⊎ ((s' ≡ record s { claims = s'.claims }) × ((is_repeat e ≡ true) ⊎ (down delete_claim ≡ true)))

-- The transaction under a mark that was set for it.
record_answer-marked :
    (down : Faults) (now : ℕ) (j : Judge) (req : SubmitAnswerReq) (x : Submission) (c : AnswerClaim)
    (s : GameStore) (e : Error) (s' : GameStore)
    → find (is_claim x.token.player_id req.question_id) s.claims ≡ none
    → is_claim x.token.player_id req.question_id c ≡ true
    → record_answer down now j req x true (record s { claims = c ∷ s.claims }) ≡ (err e, s')
    → Undone down e s s'
unfolding record_answer settle_claim release_answer
record_answer-marked down now j req x c s e s' fresh mark h =
    let s₁ = record s { claims = c ∷ s.claims } in
    elim (transaction-cases down (answer_tx down now j req x) s₁) [
      | inr (a, s₂, p) ↦ absurd (ground (arith, h, p))
      | inl (e', p) ↦
          let same : e' ≡ e = ground (arith, h, p) in
          elim (Bool-cases (is_repeat e)) [
            | inl again ↦
                let kept : s' ≡ s₁ = ground (arith, h, p, same, again) in
                inr (rw kept refl, inl again)
            | inr other ↦ elim (Bool-cases (down delete_claim)) [
              | inl off ↦
                  let kept : s' ≡ s₁ = ground (arith, h, p, same, other, off) in
                  inr (rw kept refl, inr off)
              | inr on ↦
                  let freed : s' ≡ record s {
                    claims =
                        select (λ d. not (is_claim x.token.player_id req.question_id d))
                          (c ∷ s.claims);
                  } =
                    ground (arith, h, p, same, other, on) in
                  let gone = released x.token.player_id req.question_id c s.claims mark fresh in
                  let back : s' ≡ s = freed ∙ ap (λ cs. record s { claims = cs }) gone in inl back
            ]
          ]
    ]

record_answer-unmarked :
    (down : Faults) (now : ℕ) (j : Judge) (req : SubmitAnswerReq) (x : Submission) (s : GameStore)
    (e : Error) (s' : GameStore)
    → record_answer down now j req x false s ≡ (err e, s')
    → s' ≡ s
unfolding record_answer settle_claim
record_answer-unmarked down now j req x s e s' h =
    elim (transaction-cases down (answer_tx down now j req x) s) [
      | inr (a, s₂, p) ↦ absurd (ground (arith, h, p))
      | inl (e', p) ↦ ground (arith, h, p)
    ]

submit_claimed-Undone :
    (down : Faults) (now : ℕ) (j : Judge) (req : SubmitAnswerReq) (x : Submission) (s : GameStore)
    (e : Error) (s' : GameStore)
    → (let c = claim_answer down x.token.player_id req.question_id s in
        submit_claimed down now j req x c.0 c.1 ≡ (err e, s'))
    → Undone down e s s'
unfolding claim_answer
submit_claimed-Undone down now j req x s e s' h =
    let player = x.token.player_id in
    let question = req.question_id in
    elim (Bool-cases (down set_claim)) [
      | inl off ↦ elim (Bool-cases (was_answered down player question s)) [
        | inl before ↦ inl (ground (arith, h, off, before))
        | inr new ↦
            let k : record_answer down now j req x false s ≡ (err e, s') =
              ground (arith, h, off, new) in
            inl (record_answer-unmarked down now j req x s e s' k)
      ]
      | inr on ↦ elim (Option-cases (find (is_claim player question) s.claims)) [
        | inr (c, p) ↦ inl (ground (arith, h, on, p))
        | inl p ↦
            let c : AnswerClaim = record { player_id = player; question_id = question } in
            let k : record_answer down now j req x true (record s { claims = c ∷ s.claims })
                ≡ (err e, s') =
              ground (arith, h, on, p) in
            record_answer-marked down now j req x c s e s' p (ground arith) k
      ]
    ]

-- When SubmitAnswer answers with an error, everything is as it was, unless the error says that the
-- answer was there before, or Redis refused to delete a key; and then no room, player, answer or
-- archive has changed, but at most the marks on answers.
pub submit_answer-Undone :
    (down : Faults) (now : ℕ) (j : Judge) (token : Option PlayerClaims) (req : SubmitAnswerReq)
    (s : GameStore) (e : Error) (s' : GameStore)
    → submit_answer down now j token req s ≡ (err e, s')
    → Undone down e s s'
unfolding submit_answer
submit_answer-Undone down now j token req s e s' h =
    elim (Result-cases (submission down token req s)) [
      | inl (e', p) ↦ inl (ground (arith, h, p))
      | inr ((x, s₁), p) ↦
          let same = (submission-ok down token req s x s₁ p).0 in
          let c = claim_answer down x.token.player_id req.question_id s₁ in
          let k : submit_claimed down now j req x c.0 c.1 ≡ (err e, s') = ground (arith, h, p) in
          rw (← same) (submit_claimed-Undone down now j req x s₁ e s' k)
    ]
