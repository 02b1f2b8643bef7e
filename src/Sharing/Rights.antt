-- ===== src/Sharing/Rights.antt =====
-- What an editor may do, and what is left of it.
use koviobe.Base.{
  ◌&&◌, ◌==◌, List, [], ◌∷◌, find, ℕ, true, false, not, ◌≡◌, ◌≢◌, refl, none, some, select,
  update_where, ok, arith, Text, text_eq, Bool-cases, inl, inr, lower, trim_space, is_empty, Bool,
}
use koviobe.Base.Rows.{All}
use koviobe.Model.Errors.{Faults, find_collaborator, claim_invites}
use koviobe.Model.Sharing.{Quiz, QuizCollaborator, ShareStore, role_editor}
use koviobe.License.Plans.{Setting}
use koviobe.Sharing.{
  QuizRights, no_rights, editor_rights, grants, rights_on, owner_can_share, load_quiz_rights,
  leave_shared_quiz, delete_collaborators,
}
use koviobe.Sharing.Invite.{is_pending, claim_pending_invites}

-- What a deletion takes away is not found.
find-select_out :
    {A : Type 0} (p : A → Bool) (xs : List A) → find p (select (λ x. not (p x)) xs) ≡ none
unfolding find select
find-select_out p [] = refl
find-select_out p (x ∷ xs) = ground (arith, find-select_out p xs)

leave_shared_quiz-collaborators :
    (m : Setting) (user id : ℕ) (s s' : ShareStore)
    → leave_shared_quiz m user id s ≡ ok (tt, s')
    → s'.collaborators ≡ select (λ c. not (grants id user c)) s.collaborators
unfolding leave_shared_quiz delete_collaborators
leave_shared_quiz-collaborators m user id s s' h = ground (arith, h)

-- A user who left a quiz that is not the user's own has no right to it any more, not even by another
-- row for the same account, whatever the owner's plan is, as soon as the rows can be read.
pub leave_shared_quiz-rights :
    (m m' : Setting) (quiz : Quiz) (user : ℕ) (s s' : ShareStore)
    → leave_shared_quiz m user quiz.id s ≡ ok (tt, s')
    → quiz.host_id ≢ user
    → m'.down find_collaborator ≡ false
    → load_quiz_rights m' quiz user s' ≡ (ok no_rights, s')
unfolding load_quiz_rights
leave_shared_quiz-rights m m' quiz user s s' h other up =
    let rows = leave_shared_quiz-collaborators m user quiz.id s s' h in
    let out : find (grants quiz.id user) s'.collaborators ≡ none =
      rw rows (find-select_out (grants quiz.id user) s.collaborators) in
    ground (arith, other, up, out)

-- `editor` is the only role there is.
abbrev pub IsEditor : QuizCollaborator → Type 0
IsEditor c = text_eq c.role role_editor ≡ true

abbrev pub is_open_to : ℕ → Text → QuizCollaborator → Bool
is_open_to quiz address c = c.quiz_id == quiz && is_pending address c

abbrev linked : ℕ → QuizCollaborator → QuizCollaborator
linked user c = record c { user_id = some user }

-- Once the rows of an address are linked to a user, one of them is found for the quiz.
find-linked :
    (quiz user : ℕ) (address : Text) (rows : List QuizCollaborator) (c : QuizCollaborator)
    → All IsEditor rows
    → find (is_open_to quiz address) rows ≡ some c
    → (d : QuizCollaborator) × (find
          (grants quiz user)
          (update_where (is_pending address) (linked user) rows)
        ≡ some d)
      × (grants quiz user d ≡ true)
      × IsEditor d
unfolding find update_where
find-linked quiz user address [] c roles h = absurd (ground (arith, h))
find-linked quiz user address (x ∷ xs) c (role, roles) h =
    elim (Bool-cases (is_open_to quiz address x)) [
      | inl e ↦ (linked user x, ground (arith, e), ground (arith, e), role)
      | inr e ↦
          let (d, found, ours, editor) =
            find-linked quiz user address xs c roles (ground (arith, h, e)) in
          elim (Bool-cases (grants quiz user x)) [
            | inl g ↦ (x, ground (arith, g, e), g, role)
            | inr g ↦ (d, ground (arith, g, e, found), ours, editor)
          ]
    ]

-- An invitation to an address that had no account is good once a user with that address signs in,
-- however the address is spelled there: if every row of the table has the role editor, the only one
-- there is, the statements go through and the owner's plan has sharing, the user may then view and
-- edit the quiz, and neither own, host nor copy it.
pub claim_pending_invites-rights :
    (m : Setting) (down : Faults) (quiz : Quiz) (user : ℕ) (raw : Text) (s : ShareStore)
    (c : QuizCollaborator)
    → All IsEditor s.collaborators
    → find (is_open_to quiz.id (lower (trim_space raw))) s.collaborators ≡ some c
    → is_empty (lower (trim_space raw)) ≡ false
    → down claim_invites ≡ false
    → m.down find_collaborator ≡ false
    → quiz.host_id ≢ user
    → owner_can_share m quiz.host_id s ≡ true
    → (r : QuizRights) × ((load_quiz_rights m quiz user (claim_pending_invites down user raw s)).0
        ≡ ok r)
      × (r.view ≡ true)
      × (r.edit ≡ true)
      × (r.owner ≡ false)
      × (r.host ≡ false)
      × (r.copy ≡ false)
unfolding load_quiz_rights rights_on claim_pending_invites
claim_pending_invites-rights m down quiz user raw s c roles invited named up up' other shares =
    let (d, found, ours, editor) =
      find-linked quiz.id user (lower (trim_space raw)) s.collaborators c roles invited in
    let t = claim_pending_invites down user raw s in
    let rows : find (grants quiz.id user) t.collaborators ≡ some d = rw (named, up) found in
    let plan : owner_can_share m quiz.host_id t ≡ true = rw (named, up) shares in
    (
      editor_rights,
      ground (arith, rows, plan, up', other, ours, editor),
      refl,
      refl,
      refl,
      refl,
      refl,
    )
