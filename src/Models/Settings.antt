-- ===== src/Models/Settings.antt =====
-- app/policies/models.py.
use mind_wall.Prelude.{ℕ, String, Option}

pub record PolicySetting : Type 0 where
  pub id : ℕ
  pub key : String
  pub value : String
  pub changed_by_user_id : Option ℕ
  pub changed_at : Option ℕ
  pub note : Option String
