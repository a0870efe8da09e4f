-- ===== src/Entity/Token.antt =====
-- internal/domain/entity/token.go
use go_agent_api.Base.{
  ℕ, String, Bool, true, false, not, ◌&&◌, ◌||◌, Option, none, some, List, [], ◌∷◌, str_eq, ltb,
  if◌then◌else◌,
}
use go_agent_api.Entity.Any.{Object}

pub data TokenType : Type 0 where
  api_key access refresh : TokenType

pub record Token : Type 0 where
  pub id : ℕ
  pub user_id : ℕ
  pub token_hash : String
  pub token_type : TokenType
  pub name : String
  pub expires_at : ℕ
  pub last_used_at : Option ℕ
  pub rate_limit_per_minute : ℕ
  pub rate_limit_per_day : ℕ
  pub allowed_tools : List String
  pub allowed_models : List String
  pub is_revoked : Bool
  pub metadata : Object
  pub created_at : ℕ
  pub updated_at : ℕ

-- NewAPIKey
unfoldable pub new_api_key : ℕ → ℕ → ℕ → String → String → ℕ → Token
new_api_key id now user_id token_hash name expires_at = record {
  id = id;
  user_id = user_id;
  token_hash = token_hash;
  token_type = api_key;
  name = name;
  expires_at = expires_at;
  last_used_at = none;
  rate_limit_per_minute = 60;
  rate_limit_per_day = 10000;
  allowed_tools = [];
  allowed_models = [];
  is_revoked = false;
  metadata = [];
  created_at = now;
  updated_at = now;
}

-- time.Now().After(t.ExpiresAt)
unfoldable pub is_expired : ℕ → Token → Bool
is_expired now t = ltb t.expires_at now

unfoldable pub is_valid : ℕ → Token → Bool
unfolding is_expired
is_valid now t = not t.is_revoked && not (is_expired now t)

-- the loop of CanUseTool and of CanUseModel
unfoldable pub allows : List String → String → Bool
allows [] name = false
allows (allowed ∷ rest) name =
    if str_eq allowed name || str_eq allowed "*" then true else allows rest name

unfoldable pub allows_any : List String → String → Bool
unfolding allows
allows_any [] name = true
allows_any (allowed ∷ rest) name = allows (allowed ∷ rest) name

unfoldable pub can_use_tool : Token → String → Bool
unfolding allows_any
can_use_tool t tool_name = allows_any t.allowed_tools tool_name

unfoldable pub can_use_model : Token → String → Bool
unfolding allows_any
can_use_model t model_name = allows_any t.allowed_models model_name

unfoldable pub update_last_used : ℕ → Token → Token
update_last_used now t = record t { last_used_at = some now }
