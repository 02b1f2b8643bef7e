-- ===== src/Sharing/Seats.antt =====
-- The cap on the editors of a quiz holds for every invitation.
use koviobe.Base.{
  ℕ, ◌≤◌, ◌<◌, ◌≡◌, ◌⊎◌, inl, inr, refl, true, false, ltb, Option, none, some, [], ◌∷◌, ◌++◌, find,
  count, count-append, find_sound, Text, Result, ok, err, arith, Bool-cases, Option-cases,
  Result-cases,
}
use koviobe.Model.Errors.{Error, insert_audit}
use koviobe.Model.Sharing.{Quiz, ShareStore}
use koviobe.Model.Rollback.{transaction-cases, transaction-ok}
use koviobe.License.Term.{is_unlimited}
use koviobe.License.Plans.{Entitlements}
use koviobe.License.Plans.{Setting}
use koviobe.Sharing.{entitlements_of, is_owned, load_owned_quiz}
use koviobe.Sharing.Invite.{
  Addresses, Shared, of_quiz, is_invited, new_collaborator, insert_new_collaborator, share_tx,
  recorded, invited, owned_address, check_invite, add_quiz_collaborator,
  normalize_collaborator_email,
}

-- The rows of editors are as they were, or those of the quiz keep to the limit.
abbrev Capped : ℕ → ℕ → ShareStore → ShareStore → Type 0
Capped quiz limit s s' =
    (s'.collaborators ≡ s.collaborators) ⊎ (count (of_quiz quiz) s'.collaborators ≤ limit)

insert_new_collaborator-Capped :
    (m : Setting) (user quiz : ℕ) (address : Text) (invitee : Option ℕ) (ents : Entitlements)
    (s : ShareStore) (r : Shared) (s' : ShareStore)
    → is_unlimited ents.max_collaborators_per_quiz ≡ false
    → insert_new_collaborator m user quiz address invitee ents s ≡ ok (r, s')
    → Capped quiz ents.max_collaborators_per_quiz s s'
unfolding insert_new_collaborator
insert_new_collaborator-Capped m user quiz address invitee ents s r s' finite h =
    elim (Bool-cases (ltb (count (of_quiz quiz) s.collaborators) ents.max_collaborators_per_quiz)) [
      | inr full ↦ inl (ground (arith, h, finite, full))
      | inl room ↦
          let c = new_collaborator s.next_collaborator quiz address invitee user in
          let after : s'.collaborators ≡ s.collaborators ++ (c ∷ []) =
            ground (arith, h, finite, room) in
          let one : count (of_quiz quiz) (c ∷ []) ≤ 1 = unfold count in ground arith in
          let sum = count-append (of_quiz quiz) s.collaborators (c ∷ []) in
          let left : count (of_quiz quiz) s.collaborators < ents.max_collaborators_per_quiz =
            ground (arith, room) in
          inr (rw (after, sum) (omega (arith, one, left)))
    ]

share_tx-Capped :
    (m : Setting) (user quiz : ℕ) (address : Text) (invitee : Option ℕ) (ents : Entitlements)
    (s : ShareStore) (r : Shared) (s' : ShareStore)
    → is_unlimited ents.max_collaborators_per_quiz ≡ false
    → share_tx m user quiz address invitee ents s ≡ ok (r, s')
    → Capped quiz ents.max_collaborators_per_quiz s s'
unfolding share_tx
share_tx-Capped m user quiz address invitee ents s r s' finite h =
    elim (Option-cases (find (is_invited quiz address) s.collaborators)) [
      | inr (c, k) ↦ inl (ground (arith, h, k))
      | inl k ↦
          insert_new_collaborator-Capped m user quiz address invitee ents s r s' finite
            (ground (arith, h, k))
    ]

-- The entry on the audit trail is no row of an editor.
recorded-Capped :
    (m : Setting) (user quiz limit : ℕ) (s : ShareStore) (r : Result Error Shared) (s' : ShareStore)
    → Capped quiz limit s s'
    → Capped quiz limit s (recorded m user (r, s')).1
recorded-Capped m user quiz limit s (err e) s' h = h
recorded-Capped m user quiz limit s (ok none) s' h = h
recorded-Capped m user quiz limit s (ok (some (c, false))) s' h = h
recorded-Capped m user quiz limit s (ok (some (c, true))) s' h =
    elim (Bool-cases (m.down insert_audit)) [ inl e ↦ rw e h | inr e ↦ rw e h ]

invited-Capped :
    (m : Setting) (user quiz : ℕ) (address : Text) (ents : Entitlements)
    (p : Result Error (Option ℕ × ShareStore)) (s : ShareStore)
    → is_unlimited ents.max_collaborators_per_quiz ≡ false
    → Capped quiz ents.max_collaborators_per_quiz s (invited m user quiz address ents p s).1
invited-Capped m user quiz address ents (err e) s finite = inl refl
invited-Capped m user quiz address ents (ok (invitee, t)) s finite =
    let body = share_tx m user quiz address invitee ents in
    elim (transaction-cases m.down body s) [
      | inl (e, p) ↦ rw p (inl refl)
      | inr (r, s', p) ↦ rw p (
          recorded-Capped m user quiz ents.max_collaborators_per_quiz s (ok r) s' (
            share_tx-Capped m user quiz address invitee ents s r s' finite
              (transaction-ok m.down body s r s' p)))
    ]

owned_address-id :
    (m : Setting) (a : Addresses) (user id : ℕ) (raw : Text) (s : ShareStore) (address : Text)
    (quiz : Quiz) (t : ShareStore)
    → owned_address m a user id raw s ≡ ok ((address, quiz), t)
    → quiz.id ≡ id
unfolding load_owned_quiz
owned_address-id m a user id raw s address quiz t h =
    elim (Option-cases (normalize_collaborator_email a raw)) [
      | inl p ↦ absurd (ground (arith, h, p))
      | inr (x, p) ↦ elim (Option-cases (find (is_owned id user) s.quizzes)) [
        | inl q ↦ absurd (ground (arith, h, p, q))
        | inr (y, q) ↦ ground (arith, h, p, q, find_sound (is_owned id user) s.quizzes y q)
      ]
    ]

-- Whoever invites whom, and whatever statements fail: an invitation leaves the rows of the editors as
-- they were, or they are, for this quiz, at most as many as the plan of the user who invites allows,
-- where that plan has a limit.
pub add_quiz_collaborator-Capped :
    (m : Setting) (a : Addresses) (user id : ℕ) (raw : Text) (s : ShareStore)
    → is_unlimited (entitlements_of m user s).0.max_collaborators_per_quiz ≡ false
    → ((add_quiz_collaborator m a user id raw s).1.collaborators ≡ s.collaborators)
      ⊎ (count (of_quiz id) (add_quiz_collaborator m a user id raw s).1.collaborators
          ≤ (entitlements_of m user s).0.max_collaborators_per_quiz)
unfolding add_quiz_collaborator
add_quiz_collaborator-Capped m a user id raw s finite =
    elim (Result-cases (owned_address m a user id raw s)) [
      | inl (e, p) ↦ rw p (inl refl)
      | inr (((address, quiz), t), p) ↦
          let named : quiz.id ≡ id = owned_address-id m a user id raw s address quiz t p in
          let (ents, s₁) = entitlements_of m user s in
          rw (p, ← named)
            (invited-Capped m user quiz.id address ents (check_invite m a user address ents s₁) s₁
              finite)
    ]
