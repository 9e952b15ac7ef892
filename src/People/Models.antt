-- ===== src/People/Models.antt =====
-- models/user.py and models/role.py. A link of `UserRole` stands with the name of its `Role`, as
-- every query joins the two. The columns of the public profile are left out.
use enactspace.Shared.{ℕ, String, Bool, Option, List}

pub record User : Type 0 where
  pub id : ℕ
  pub first_name : String
  pub last_name : String
  pub email : String
  pub profile_type : String
  pub password_hash : String
  pub status : String
  pub email_verified : Bool
  pub is_active : Bool
  pub created_at : ℕ
  pub updated_at : ℕ

pub record UserRole : Type 0 where
  pub id : ℕ
  pub user_id : ℕ
  pub role_name : String

-- models/pole.py
pub record PoleMember : Type 0 where
  pub id : ℕ
  pub pole_id : ℕ
  pub user_id : ℕ
  pub position : String
  pub joined_at : ℕ
  pub left_at : Option ℕ
  pub is_active : Bool

-- models/project.py
pub record ProjectMember : Type 0 where
  pub id : ℕ
  pub project_id : ℕ
  pub user_id : ℕ
  pub position : String
  pub joined_at : ℕ
  pub left_at : Option ℕ
  pub is_active : Bool

pub record People : Type 0 where
  pub users : List User
  pub user_roles : List UserRole
  pub pole_members : List PoleMember
  pub project_members : List ProjectMember
