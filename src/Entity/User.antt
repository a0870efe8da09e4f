-- ===== src/Entity/User.antt =====
-- internal/domain/entity/user.go
use go_agent_api.Base.{ℕ, String, Bool, true, false, ◌&&◌, ◌||◌, []}
use go_agent_api.Entity.Any.{Object}

pub data UserRole : Type 0 where
  admin user agent : UserRole

pub record User : Type 0 where
  pub id : ℕ
  pub email : String
  pub password_hash : String
  pub name : String
  pub role : UserRole
  pub is_active : Bool
  pub metadata : Object
  pub created_at : ℕ
  pub updated_at : ℕ

-- NewUser
unfoldable pub new_user : ℕ → ℕ → String → String → String → User
new_user id now email password_hash name = record {
  id = id;
  email = email;
  password_hash = password_hash;
  name = name;
  role = user;
  is_active = true;
  metadata = [];
  created_at = now;
  updated_at = now;
}

abbrev pub is_admin_role : UserRole → Bool
is_admin_role admin = true
is_admin_role _ = false

abbrev pub is_user_role : UserRole → Bool
is_user_role user = true
is_user_role _ = false

unfoldable pub can_use_tools : User → Bool
can_use_tools u = u.is_active && (is_admin_role u.role || is_user_role u.role)

unfoldable pub is_admin : User → Bool
is_admin u = is_admin_role u.role
