-- ===== src/Sharing.antt =====
-- internal/handler/quiz_sharing.go: who may do what with a quiz (rightsOn, loadQuizRights), and how an
-- owner grants and takes back the right to edit it.
pub mod Invite
pub mod Rights
pub mod Seats
use koviobe.Base.{
  ℕ, Text, Bool, true, false, ◌&&◌, not, Option, none, some, ◌∷◌, ◌==◌, ltb, if◌then◌else◌, text_eq,
  codes, find, count, select, Tx, Result, ok, err, ◌>>=◌, ◌>>◌, guard, gets, modify, or_fail,
}
use koviobe.Model.Errors.{
  Error, Faults, db_error, quiz_not_found, collaborator_not_found, find_quiz, delete_collaborator,
  find_collaborator, insert_audit,
}
use koviobe.Model.Store.{stmt}
use koviobe.Model.Sharing.{Quiz, QuizCollaborator, ShareStore, role_editor}
use koviobe.License.Plans.{Setting, Entitlements, entitlements}

pub record QuizRights : Type 0 where
  pub owner : Bool
  pub view : Bool
  pub host : Bool
  pub copy : Bool
  pub edit : Bool

abbrev pub no_rights : QuizRights
no_rights = record { owner = false; view = false; host = false; copy = false; edit = false }

abbrev pub owner_rights : QuizRights
owner_rights = record { owner = true; view = true; host = true; copy = true; edit = true }

abbrev pub editor_rights : QuizRights
editor_rights = record { owner = false; view = true; host = false; copy = false; edit = true }

abbrev pub belongs_to : ℕ → Option ℕ → Bool
belongs_to user none = false
belongs_to user (some u) = u == user

-- The row that lets the user at the quiz.
abbrev pub grants : ℕ → ℕ → QuizCollaborator → Bool
grants quiz user c = c.quiz_id == quiz && belongs_to user c.user_id

abbrev pub collab_rights : ℕ → ℕ → Option QuizCollaborator → QuizRights
collab_rights quiz user none = no_rights
collab_rights quiz user (some c) =
    if grants quiz user c && text_eq c.role role_editor then editor_rights else no_rights

unfoldable pub rights_on : Quiz → ℕ → Option QuizCollaborator → Bool → QuizRights
rights_on quiz user collab owner_can_share =
    if quiz.host_id == user
    then owner_rights
    else if owner_can_share
    then collab_rights quiz.id user collab
    else no_rights

-- license.GetEntitlements, which may give the user the free plan's row.
abbrev pub entitlements_of : Setting → ℕ → ShareStore → Entitlements × ShareStore
entitlements_of m user s = let (e, t) = entitlements m user s.tables in (e, record s { tables = t })

abbrev pub owner_can_share : Setting → ℕ → ShareStore → Bool
owner_can_share m owner s = (entitlements_of m owner s).0.allow_quiz_sharing

abbrev pub rights_of_row :
    Setting → Quiz → ℕ → Option QuizCollaborator → ShareStore → Result Error QuizRights × ShareStore
rights_of_row m quiz user none s = (ok no_rights, s)
rights_of_row m quiz user (some c) s = (
  ok (rights_on quiz user (some c) (owner_can_share m quiz.host_id s)),
  (entitlements_of m quiz.host_id s).1,
)

unfoldable pub load_quiz_rights :
    Setting → Quiz → ℕ → ShareStore → Result Error QuizRights × ShareStore
unfolding rights_on
load_quiz_rights m quiz user s =
    if quiz.host_id == user
    then (ok (rights_on quiz user none true), s)
    else if m.down find_collaborator
    then (err db_error, s)
    else rights_of_row m quiz user (find (grants quiz.id user) s.collaborators) s

abbrev pub Share : Type 0 → Type 0
Share A = Tx Error ShareStore A

abbrev pub is_owned : ℕ → ℕ → Quiz → Bool
is_owned id user q = q.id == id && q.host_id == user

unfoldable pub load_owned_quiz : Faults → ℕ → ℕ → Share Quiz
load_owned_quiz down id user = do
  found ← gets (λ s. find (is_owned id user) s.quizzes)
  guard (not (down (find_quiz id))) quiz_not_found
  or_fail found quiz_not_found

-- Where rows are deleted, none is an error.
unfoldable pub delete_collaborators :
    Faults → (QuizCollaborator → Bool) → ℕ → Error → Share (Unit {0})
delete_collaborators down gone id missing = do
  n ← gets (λ s. count gone s.collaborators)
  stmt down (delete_collaborator id)
  guard (ltb 0 n) missing
  modify (λ s. record s { collaborators = select (λ c. not (gone c)) s.collaborators })

-- audit.Record: an entry that cannot be written is lost.
abbrev pub audited : Faults → ℕ → Text → ℕ → ShareStore → ShareStore
audited down user action now s = if down insert_audit then s else record s {
  audit_logs = record { user_id = user; action = action; created_at = now } ∷ s.audit_logs;
}

unfoldable pub remove_quiz_collaborator : Setting → ℕ → ℕ → ℕ → Share (Unit {0})
unfolding load_owned_quiz delete_collaborators
remove_quiz_collaborator m user id cid = do
  quiz ← load_owned_quiz m.down id user
  delete_collaborators m.down (λ c. c.id == cid && c.quiz_id == quiz.id) quiz.id
      collaborator_not_found
  modify (audited m.down user (codes "quiz_share_remove") m.now)

unfoldable pub leave_shared_quiz : Setting → ℕ → ℕ → Share (Unit {0})
unfolding delete_collaborators
leave_shared_quiz m user id = do
  delete_collaborators m.down (grants id user) id quiz_not_found
  modify (audited m.down user (codes "quiz_share_leave") m.now)
