-- ===== src/Model/Sharing.antt =====
-- internal/model/model.go: the tables of quizzes and of those who may edit them. A row has the columns
-- that quiz_sharing.go reads or writes. Rows of collaborators stand oldest first.
use koviobe.Base.{ℕ, Text, Option, List, codes}
use koviobe.Model.Store.{Store}

pub record Quiz : Type 0 where
  pub id : ℕ
  pub host_id : ℕ

-- `user_id` is none until the address has an account.
pub record QuizCollaborator : Type 0 where
  pub id : ℕ
  pub quiz_id : ℕ
  pub email : Text
  pub user_id : Option ℕ
  pub role : Text
  pub invited_by : ℕ

abbrev pub role_editor : Text
role_editor = codes "editor"

pub record AuditLog : Type 0 where
  pub user_id : ℕ
  pub action : Text
  pub created_at : ℕ

-- `tables` has the users and their subscriptions.
pub record ShareStore : Type 0 where
  pub tables : Store
  pub quizzes : List Quiz
  pub collaborators : List QuizCollaborator
  pub next_collaborator : ℕ
  pub audit_logs : List AuditLog
