-- ===== src/Auth/Jwt.antt =====
-- internal/pkg/jwt/jwt.go. The JWT library, SHA-256 and bcrypt are the record `Library`.
use Prim.Native.String.{◌++◌}
use go_agent_api.Base.{ℕ, ◌+◌, ◌<◌, String, Bool, true, ◌≡◌, if◌then◌else◌}
use go_agent_api.Base.Exec.{Result, ok, err, message}

-- Claims, with the registered claims that the code sets; a nil date is not among them.
pub record Claims : Type 0 where
  pub user_id : ℕ
  pub token_id : ℕ
  pub token_type : String
  pub expires_at : ℕ
  pub issued_at : ℕ
  pub issuer : String

pub data SigningMethod : Type 0 where
  hmac other : SigningMethod

-- jwt.Token, as ParseWithClaims returns it
pub record ParsedToken : Type 0 where
  pub claims : Claims
  pub valid : Bool

-- The key function that a parse is given.
abbrev pub Keys : Type 0
Keys = SigningMethod → Result String

pub record Library : Type 0 where
  -- jwt.NewWithClaims(HS256, claims).SignedString(secret)
  pub sign : String → Claims → Result String
  -- jwt.ParseWithClaims at a time
  pub parse : ℕ → Keys → String → Result ParsedToken
  -- jwt.NewNumericDate
  pub numeric_date : ℕ → ℕ
  -- the hexadecimal SHA-256 of a text
  pub sha256_hex : String → String
  -- bcrypt: whether the comparison returns no error, and the hash of a password
  pub password_matches : String → String → Bool
  pub hash_password : String → Result String

pub record JwtManager : Type 0 where
  pub secret : String
  pub access_token_ttl : ℕ
  pub refresh_token_ttl : ℕ
  pub issuer : String

-- NewJWTManager
unfoldable pub new_jwt_manager : String → ℕ → ℕ → JwtManager
new_jwt_manager secret access_ttl refresh_ttl = record {
  secret = secret;
  access_token_ttl = access_ttl;
  refresh_token_ttl = refresh_ttl;
  issuer = "go-agent-api";
}

abbrev pub claims_for : Library → JwtManager → ℕ → String → ℕ → ℕ → ℕ → Claims
claims_for lib m now token_type ttl user_id token_id = record {
  user_id = user_id;
  token_id = token_id;
  token_type = token_type;
  expires_at = lib.numeric_date (now + ttl);
  issued_at = lib.numeric_date now;
  issuer = m.issuer;
}

unfoldable pub generate_access_token : Library → JwtManager → ℕ → ℕ → ℕ → Result String
generate_access_token lib m now user_id token_id =
    lib.sign m.secret (claims_for lib m now "access" m.access_token_ttl user_id token_id)

unfoldable pub generate_refresh_token : Library → JwtManager → ℕ → ℕ → ℕ → Result String
generate_refresh_token lib m now user_id token_id =
    lib.sign m.secret (claims_for lib m now "refresh" m.refresh_token_ttl user_id token_id)

-- the function literal that ValidateToken passes
unfoldable pub hmac_key : String → Keys
hmac_key secret hmac = ok secret
hmac_key secret other = err (message "unexpected signing method")

abbrev pub valid_claims : Result ParsedToken → Result Claims
valid_claims (err x) = err x
valid_claims (ok t) = if t.valid then ok t.claims else err (message "invalid token")

unfoldable pub validate_token : Library → JwtManager → ℕ → String → Result Claims
validate_token lib m now token = valid_claims (lib.parse now (hmac_key m.secret) token)

unfoldable pub hash_token : Library → String → String
hash_token lib raw = lib.sha256_hex raw

-- `uuid_text` is uuid.New().String()
unfoldable pub generate_api_key : String → String
generate_api_key uuid_text = "sk-" ++ uuid_text

-- What the program relies on of the JWT library: a signed text parses, until the claims expire,
-- to its claims, and does not look like an API key.
pub record Signs (lib : Library) : Type 0 where
  pub parses :
      (secret : String) (c : Claims) (token : String) (now : ℕ)
      → lib.sign secret c ≡ ok token
      → now < c.expires_at
      → lib.parse now (hmac_key secret) token ≡ ok (record { claims = c; valid = true })
