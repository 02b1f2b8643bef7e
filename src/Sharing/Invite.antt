-- ===== src/Sharing/Invite.antt =====
-- internal/handler/quiz_sharing.go (AddQuizCollaborator, claimPendingInvites): an owner invites an
-- address to edit a quiz, and the address comes to have an account.
use koviobe.Base.{
  ℕ, suc, Text, Bool, true, false, ◌&&◌, ◌||◌, not, Option, none, some, [], ◌∷◌, ◌++◌, ◌==◌, ◌+◌,
  ◌*◌, ltb, if◌then◌else◌, text_eq, codes, find, count, update_where, lower, trim_space, is_empty,
  byte_len, second, Result, ok, err, ◌>>=◌, ◌>>◌, return, guard, gets, modify, or_fail,
}
use koviobe.Model.Errors.{
  Error, Faults, db_error, bad_address, bad_domain, sharing_not_allowed, own_quiz, too_many_invites,
  collaborator_limit, lock_quiz, count_collaborators, find_collaborator, insert_collaborator,
  claim_invites, count_audits, find_invitee, find_user,
}
use koviobe.Model.License.{User}
use koviobe.Model.Store.{stmt, transaction}
use koviobe.Model.Sharing.{Quiz, QuizCollaborator, AuditLog, ShareStore, role_editor}
use koviobe.License.Term.{is_unlimited}
use koviobe.License.Plans.{Entitlements, user_is}
use koviobe.License.Plans.{Setting}
use koviobe.Sharing.{Share, entitlements_of, load_owned_quiz, audited}

-- What the packages outside the repository know of addresses: mail.ParseAddress, as name and address;
-- the name servers that email.CheckDomain asks; and the case folding of strings.EqualFold.
pub record Addresses : Type 0 where
  pub parse_address : Text → Option (Text × Text)
  pub domain_ok : Text → Bool
  pub equal_fold : Text → Text → Bool

abbrev pub is_plain : Text → Option (Text × Text) → Option Text
is_plain s none = none
is_plain s (some (name, address)) = if text_eq address s && is_empty name then some s else none

unfoldable pub normalize_collaborator_email : Addresses → Text → Option Text
normalize_collaborator_email a raw =
    let s = lower (trim_space raw) in
    if is_empty s || ltb 255 (byte_len s) then none else is_plain s (a.parse_address s)

abbrev pub share_invites_per_hour : ℕ
share_invites_per_hour = 30

abbrev pub hour : ℕ
hour = 3600 * second

abbrev pub is_invite : ℕ → ℕ → AuditLog → Bool
is_invite user now l =
    l.user_id == user && text_eq l.action (codes "quiz_share_add") && ltb now (l.created_at + hour)

abbrev pub has_email : Text → User → Bool
has_email address u = text_eq (lower u.email) address

abbrev pub id_of : Option User → Option ℕ
id_of none = none
id_of (some u) = some u.id

-- The checks between the reading of the plan and the transaction. What is returned is the account of
-- the address, if it has one.
unfoldable pub check_invite : Setting → Addresses → ℕ → Text → Entitlements → Share (Option ℕ)
check_invite m a user address ents = do
  guard ents.allow_quiz_sharing sharing_not_allowed
  row ← gets (λ s. find (user_is user) s.tables.users)
  stmt m.down (find_user user)
  owner ← or_fail row db_error
  guard (not (a.equal_fold owner.email address)) own_quiz
  sent ← gets (λ s. count (is_invite user m.now) s.audit_logs)
  stmt m.down count_audits
  guard (ltb sent share_invites_per_hour) too_many_invites
  invitee ← gets (λ s. find (has_email address) s.tables.users)
  return (if m.down find_invitee then none else id_of invitee)

abbrev pub of_quiz : ℕ → QuizCollaborator → Bool
of_quiz quiz c = c.quiz_id == quiz

abbrev pub is_invited : ℕ → Text → QuizCollaborator → Bool
is_invited quiz address c = c.quiz_id == quiz && text_eq c.email address

abbrev pub new_collaborator : ℕ → ℕ → Text → Option ℕ → ℕ → QuizCollaborator
new_collaborator id quiz address invitee user = record {
  id = id;
  quiz_id = quiz;
  email = address;
  user_id = invitee;
  role = role_editor;
  invited_by = user;
}

-- What comes of the transaction: the row and whether it is new, or none where the limit was hit.
abbrev pub Shared : Type 0
Shared = Option (QuizCollaborator × Bool)

abbrev pub insert_collaborator_row : Setting → (ℕ → QuizCollaborator) → Share Shared
insert_collaborator_row m row = do
  stmt m.down insert_collaborator
  id ← gets (λ s. s.next_collaborator)
  modify (λ s. record s {
    collaborators = s.collaborators ++ (row id ∷ []);
    next_collaborator = suc s.next_collaborator;
  })
  return (some (row id, true))

unfoldable pub insert_new_collaborator :
    Setting → ℕ → ℕ → Text → Option ℕ → Entitlements → Share Shared
insert_new_collaborator m user quiz address invitee ents = do
  n ← gets (λ s. count (of_quiz quiz) s.collaborators)
  stmt m.down (count_collaborators quiz)
  if is_unlimited ents.max_collaborators_per_quiz || ltb n ents.max_collaborators_per_quiz
      then insert_collaborator_row m (λ id. new_collaborator id quiz address invitee user)
      else return none

-- The transaction, under the lock on the quiz.
unfoldable pub share_tx : Setting → ℕ → ℕ → Text → Option ℕ → Entitlements → Share Shared
unfolding insert_new_collaborator
share_tx m user quiz address invitee ents = do
  stmt m.down (lock_quiz quiz)
  held ← gets (λ s. find (is_invited quiz address) s.collaborators)
  stmt m.down find_collaborator
  elim held [
    | some c ↦ return (some (c, false))
    | none ↦ insert_new_collaborator m user quiz address invitee ents
  ]

-- The end of the handler: a new row is put on the audit trail.
abbrev pub recorded :
    Setting
    → ℕ
    → Result Error Shared × ShareStore
    → Result Error (QuizCollaborator × Bool) × ShareStore
recorded m user (ok none, s) = (err collaborator_limit, s)
recorded m user (ok (some (c, true)), s) =
    (ok (c, true), audited m.down user (codes "quiz_share_add") m.now s)
recorded m user (ok (some (c, false)), s) = (ok (c, false), s)
recorded m user (err e, s) = (err e, s)

abbrev pub invited :
    Setting
    → ℕ
    → ℕ
    → Text
    → Entitlements
    → Result Error (Option ℕ × ShareStore)
    → ShareStore
    → Result Error (QuizCollaborator × Bool) × ShareStore
invited m user quiz address ents (err e) s = (err e, s)
invited m user quiz address ents (ok (invitee, _)) s =
    recorded m user (transaction m.down (share_tx m user quiz address invitee ents) s)

abbrev pub owned_address : Setting → Addresses → ℕ → ℕ → Text → Share (Text × Quiz)
owned_address m a user id raw = do
  address ← or_fail (normalize_collaborator_email a raw) bad_address
  quiz ← load_owned_quiz m.down id user
  guard (a.domain_ok address) bad_domain
  return (address, quiz)

abbrev pub invite_checked :
    Setting
    → Addresses
    → ℕ
    → Result Error ((Text × Quiz) × ShareStore)
    → ShareStore
    → Result Error (QuizCollaborator × Bool) × ShareStore
invite_checked m a user (err e) s = (err e, s)
invite_checked m a user (ok ((address, quiz), _)) s =
    let (ents, s₁) = entitlements_of m user s in
    invited m user quiz.id address ents (check_invite m a user address ents s₁) s₁

unfoldable pub add_quiz_collaborator :
    Setting
    → Addresses
    → ℕ
    → ℕ
    → Text
    → ShareStore
    → Result Error (QuizCollaborator × Bool) × ShareStore
unfolding check_invite share_tx normalize_collaborator_email load_owned_quiz
add_quiz_collaborator m a user id raw s =
    invite_checked m a user (owned_address m a user id raw s) s

abbrev pub is_pending : Text → QuizCollaborator → Bool
is_pending address c = text_eq c.email address && elim c.user_id [ none ↦ true | some _ ↦ false ]

-- After a sign-in: the invitations of the address become the user's.
unfoldable pub claim_pending_invites : Faults → ℕ → Text → ShareStore → ShareStore
claim_pending_invites down user raw s =
    let address = lower (trim_space raw) in
    if is_empty address || down claim_invites then s else record s {
      collaborators =
          update_where (is_pending address) (λ c. record c { user_id = some user }) s.collaborators;
    }
