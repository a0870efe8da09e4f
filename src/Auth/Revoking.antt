-- ===== src/Auth/Revoking.antt =====
-- Validations, of validate_token.go, after RevokeAllForUser of token_repository.go.
use go_agent_api.Base.{
  ℕ, String, Bool, true, ==_iff, some, List, [], ◌∷◌, map, ◌≡◌, ◌≢◌, refl, ap, sym, ◌∙◌, arith,
  first, Bool-cases, inl, inr,
}
use go_agent_api.Base.Exec.{ok}
use go_agent_api.Entity.Token.{Token, is_valid}
use go_agent_api.Store.World.{World}
use go_agent_api.Store.Rows.{quiet-eq}
use go_agent_api.Store.Tokens
use go_agent_api.Store.Tokens.{has_user, revoke_row}
use go_agent_api.Auth.Jwt.{Library, JwtManager}
use go_agent_api.Auth.Validate.{ValidateTokenResult, validate}
use go_agent_api.Auth.Sound.{key, signed, validate_sound}

revoked_row :
    (now user_id : ℕ) (t : Token)
    → (revoke_row now (has_user user_id) t).user_id ≡ user_id
    → (revoke_row now (has_user user_id) t).is_revoked ≡ true
revoked_row now user_id t p = ground (arith, ==_iff t.user_id user_id)

-- A token that a search finds after the revocation is revoked when it is the user's.
first-revoked :
    (now user_id : ℕ) (p : Token → Bool) (tokens : List Token) (t : Token)
    → first p (map (revoke_row now (has_user user_id)) tokens) ≡ some t
    → t.user_id ≡ user_id
    → t.is_revoked ≡ true
first-revoked now user_id p [] t q r = absurd (ground (arith, q))
first-revoked now user_id p (s ∷ tokens) t q r =
    elim (Bool-cases (p (revoke_row now (has_user user_id) s))) [
      | inl e ↦
          let same : revoke_row now (has_user user_id) s ≡ t = ground (arith, rw e at q) in
          ap (λ (x : Token). x.is_revoked) (sym same)
          ∙ revoked_row now user_id s (ap (λ (x : Token). x.user_id) same ∙ r)
      | inr e ↦ first-revoked now user_id p tokens t (rw e at q) r
    ]

revoked_tokens :
    (user_id : ℕ) (w : World)
    → w.faults ≡ []
    → (Tokens.revoke_all_for_user user_id w).1.tokens
      ≡ map (revoke_row w.now (has_user user_id)) w.tokens
unfolding Tokens.revoke_all_for_user
revoked_tokens user_id w p = rw (quiet-eq w p) refl

revoked_invalid : (now : ℕ) (t : Token) → is_valid now t ≡ true → t.is_revoked ≢ true
unfolding is_valid
revoked_invalid now t p q = ground arith

-- After all tokens of a user are revoked, where no statement is refused, no validation of any text at
-- any time grants a session of a token of that user.
pub revoke_all_for_user-validate :
    (lib : Library) (m : JwtManager) (user_id now : ℕ) (raw : String) (w v : World)
    (r : ValidateTokenResult)
    → w.faults ≡ []
    → validate lib m now raw (Tokens.revoke_all_for_user user_id w).1 ≡ (ok r, v)
    → r.token.user_id ≢ user_id
revoke_all_for_user-validate lib m user_id now raw w v r quiet p mine =
    let (grounds, valid, _, _, _) = validate_sound lib m now raw _ v r p in
    let stored = revoked_tokens user_id w quiet in
    revoked_invalid now r.token valid (elim grounds [
      | key a b c ↦
          first-revoked w.now user_id _ w.tokens r.token (sym (ap (first _) stored) ∙ b) mine
      | signed claims a b c d ↦
          first-revoked w.now user_id _ w.tokens r.token (sym (ap (first _) stored) ∙ c) mine
    ])
