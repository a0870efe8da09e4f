-- ===== src/Store/TokenColumns.antt =====
-- The columns of a row of `user_tokens`: what the INSERT of token_repository.go writes, and what
-- scanToken and scanTokenFromRow read.
use go_agent_api.Base.{ℕ, String, Bool, Option, none, some, List, ◌≡◌, refl, str_eq, if◌then◌else◌}
use go_agent_api.Entity.Any.{Object}
use go_agent_api.Entity.Token.{Token, TokenType, api_key, access, refresh}
use go_agent_api.Store.Tokens.{new_row}

record TokenColumns : Type 0 where
  id : ℕ
  user_id : ℕ
  token_hash : String
  token_type : String
  name : String
  expires_at : ℕ
  last_used_at : Option ℕ
  rate_limit_per_minute : ℕ
  rate_limit_per_day : ℕ
  allowed_tools : List String
  allowed_models : List String
  is_revoked : Bool
  metadata : Object
  created_at : ℕ
  updated_at : ℕ

-- string(token.TokenType)
abbrev type_text : TokenType → String
type_text api_key = "api_key"
type_text access = "access"
type_text refresh = "refresh"

-- entity.TokenType(tokenType), of the texts that the column's CHECK admits
abbrev type_of : String → Option TokenType
type_of t =
    if str_eq t "api_key"
    then some api_key
    else if str_eq t "access"
    then some access
    else if str_eq t "refresh"
    then some refresh
    else none

-- the INSERT of Create, which does not give last_used_at
inserted_token : Token → TokenColumns
inserted_token t = record {
  id = t.id;
  user_id = t.user_id;
  token_hash = t.token_hash;
  token_type = type_text t.token_type;
  name = t.name;
  expires_at = t.expires_at;
  last_used_at = none;
  rate_limit_per_minute = t.rate_limit_per_minute;
  rate_limit_per_day = t.rate_limit_per_day;
  allowed_tools = t.allowed_tools;
  allowed_models = t.allowed_models;
  is_revoked = t.is_revoked;
  metadata = t.metadata;
  created_at = t.created_at;
  updated_at = t.updated_at;
}

abbrev with_type : TokenColumns → Option TokenType → Option Token
with_type c none = none
with_type c (some token_type) = some (record {
  id = c.id;
  user_id = c.user_id;
  token_hash = c.token_hash;
  token_type = token_type;
  name = c.name;
  expires_at = c.expires_at;
  last_used_at = c.last_used_at;
  rate_limit_per_minute = c.rate_limit_per_minute;
  rate_limit_per_day = c.rate_limit_per_day;
  allowed_tools = c.allowed_tools;
  allowed_models = c.allowed_models;
  is_revoked = c.is_revoked;
  metadata = c.metadata;
  created_at = c.created_at;
  updated_at = c.updated_at;
})

-- the row of scanToken and of scanTokenFromRow
scan_token : TokenColumns → Option Token
scan_token c = with_type c (type_of c.token_type)

type_of-type_text : (k : TokenType) → type_of (type_text k) ≡ some k
type_of-type_text api_key = refl
type_of-type_text access = refl
type_of-type_text refresh = refl

-- What is read of the row that the INSERT of a token wrote is the row that Tokens keeps.
scan_token-inserted_token : (t : Token) → scan_token (inserted_token t) ≡ some (new_row t)
unfolding scan_token inserted_token
scan_token-inserted_token t = rw (type_of-type_text t.token_type) refl
