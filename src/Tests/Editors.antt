-- ===== src/Tests/Editors.antt =====
-- The theorems on the sharing of quizzes, applied to one quiz of the buyer's.
use koviobe.Model.Store.{transaction}
use koviobe.Base.{
  ◌≡◌, ◌≤◌, ◌⊎◌, refl, arith, codes, false, none, some, [], ◌∷◌, ok, count, text_eq, lower,
  trim_space, is_empty, find, true, select, is_space, to_lower, byte_len, rune_len,
}
use koviobe.Model.Errors.{no_faults}
use koviobe.Model.Sharing.{Quiz, QuizCollaborator, ShareStore, role_editor}
use koviobe.Base.Rows.{All}
use koviobe.License.Term.{is_unlimited}
use koviobe.License.Plans.{get_entitlements, open_entitlements}
use koviobe.License.Plans.{Setting}
use koviobe.Sharing.{
  no_rights, QuizRights, load_quiz_rights, leave_shared_quiz, entitlements_of, owner_can_share,
}
use koviobe.Sharing.Invite.{Addresses, of_quiz, add_quiz_collaborator, claim_pending_invites}
use koviobe.Sharing.Rights.{
  IsEditor, is_open_to, leave_shared_quiz-rights, claim_pending_invites-rights,
}
use koviobe.Sharing.Seats.{add_quiz_collaborator-Capped}
use koviobe.Tests.{clock, shop}

abbrev quiz_3 : Quiz
quiz_3 = record { id = 3; host_id = 7 }

abbrev editor : QuizCollaborator
editor = record {
  id = 1;
  quiz_id = 3;
  email = codes "binh@example.vn";
  user_id = some 8;
  role = role_editor;
  invited_by = 7;
}

abbrev guest : QuizCollaborator
guest = record editor { id = 2; email = codes "chi@example.vn"; user_id = none }

abbrev shared : ShareStore
shared = record {
  tables = shop;
  quizzes = quiz_3 ∷ [];
  collaborators = editor ∷ guest ∷ [];
  next_collaborator = 3;
  audit_logs = [];
}

abbrev licence_off : Setting
licence_off = record { down = no_faults; now = clock; config = none; seats = 5; enforcing = false }

abbrev addresses : Addresses
addresses = record {
  parse_address = λ s. some ([], s);
  domain_ok = λ s. text_eq s (codes "dung@example.vn");
  equal_fold = λ s t. text_eq (lower s) (lower t);
}

abbrev after_leave : ShareStore
after_leave = record shared {
  collaborators = guest ∷ [];
  audit_logs = record { user_id = 8; action = codes "quiz_share_leave"; created_at = clock } ∷ [];
}

leaves_quiz : leave_shared_quiz licence_off 8 3 shared ≡ ok (tt, after_leave)
unfolding leave_shared_quiz count select
leaves_quiz = refl

leave_shared_quiz-rights_example :
    load_quiz_rights licence_off quiz_3 8 after_leave ≡ (ok no_rights, after_leave)
leave_shared_quiz-rights_example =
    leave_shared_quiz-rights licence_off licence_off quiz_3 8 shared after_leave leaves_quiz
      (λ e. absurd (omega (arith, e))) refl

finds_guest :
    find (is_open_to 3 (lower (trim_space (codes " Chi@Example.vn")))) shared.collaborators
    ≡ some guest
unfolding find text_eq trim_space is_space to_lower
finds_guest = refl

is_address : is_empty (lower (trim_space (codes " Chi@Example.vn"))) ≡ false
unfolding trim_space is_space
is_address = refl

shares : owner_can_share licence_off 7 shared ≡ true
unfolding get_entitlements open_entitlements
shares = refl

roles : All IsEditor shared.collaborators
unfolding text_eq
roles = (refl, (refl, tt))

claim_pending_invites-rights_example :
    (r : QuizRights) × ((load_quiz_rights licence_off quiz_3 9
        (claim_pending_invites no_faults 9 (codes " Chi@Example.vn") shared)).0
      ≡ ok r)
    × (r.view ≡ true)
    × (r.edit ≡ true)
    × (r.owner ≡ false)
    × (r.host ≡ false)
    × (r.copy ≡ false)
claim_pending_invites-rights_example =
    claim_pending_invites-rights licence_off no_faults quiz_3 9 (codes " Chi@Example.vn") shared
      guest roles finds_guest is_address refl refl (λ e. absurd (omega (arith, e))) shares

limited : is_unlimited (entitlements_of licence_off 7 shared).0.max_collaborators_per_quiz ≡ false
unfolding is_unlimited get_entitlements open_entitlements
limited = refl

abbrev after_invite : ShareStore
after_invite = (add_quiz_collaborator licence_off addresses 7 3 (codes "Dung@example.vn") shared).1

-- The address has no account, so the third row waits for one.
invites : count (of_quiz 3) after_invite.collaborators ≡ 3
unfolding count add_quiz_collaborator trim_space is_space byte_len rune_len to_lower text_eq find
    get_entitlements open_entitlements transaction is_unlimited
invites = refl

add_quiz_collaborator-Capped_example :
    (after_invite.collaborators ≡ shared.collaborators)
    ⊎ (count (of_quiz 3) after_invite.collaborators
        ≤ (entitlements_of licence_off 7 shared).0.max_collaborators_per_quiz)
add_quiz_collaborator-Capped_example =
    add_quiz_collaborator-Capped licence_off addresses 7 3 (codes "Dung@example.vn") shared limited
