-- ===== src/Examples/Signing.antt =====
-- A signing library that signs two sets of claims and does what the program relies on.
use go_agent_api.Base.{
  ℕ, String, Bool, true, ◌&&◌, ◌==◌, str_eq, eq_iff, ◌≡◌, ap, sym, ◌∙◌, arith, if◌then◌else◌,
  Bool-cases, inl, inr,
}
use go_agent_api.Base.Exec.{Result, ok, err, message}
use go_agent_api.Auth.Jwt.{Library, Claims, ParsedToken, hmac, hmac_key, Signs}
use go_agent_api.Examples.Fixtures.{library}

abbrev claims_of : String → ℕ → Claims
claims_of token_type expires_at = record {
  user_id = 1;
  token_id = 9;
  token_type = token_type;
  expires_at = expires_at;
  issued_at = 5;
  issuer = "go-agent-api";
}

abbrev access_claims : Claims
access_claims = claims_of "access" 905

abbrev refresh_claims : Claims
refresh_claims = claims_of "refresh" 9005

abbrev same : Claims → Claims → Bool
same c d =
    c.user_id == d.user_id
    && (c.token_id == d.token_id
        && (str_eq c.token_type d.token_type
            && (c.expires_at == d.expires_at
                && (c.issued_at == d.issued_at && str_eq c.issuer d.issuer))))

same_eq : (c d : Claims) → same c d ≡ true → c ≡ d
same_eq c d p =
    let q : (c.user_id ≡ d.user_id)
        × (c.token_id ≡ d.token_id)
        × (c.token_type ≡ d.token_type)
        × (c.expires_at ≡ d.expires_at)
        × (c.issued_at ≡ d.issued_at)
        × (c.issuer ≡ d.issuer) =
      ground (arith, p, eq_iff c.token_type d.token_type, eq_iff c.issuer d.issuer) in
    λ i. record {
      user_id = q.0 i;
      token_id = q.1 i;
      token_type = q.2 i;
      expires_at = q.3 i;
      issued_at = q.4 i;
      issuer = q.5 i;
    }

abbrev signed_text : Claims → Result String
signed_text c =
    if same c access_claims
    then ok "access text"
    else if same c refresh_claims
    then ok "refresh text"
    else err (message "not signed")

abbrev parsed_text : String → Result ParsedToken
parsed_text t =
    if str_eq t "access text"
    then ok (record { claims = access_claims; valid = true })
    else if str_eq t "refresh text"
    then ok (record { claims = refresh_claims; valid = true })
    else err (message "malformed")

abbrev checked_key : Result String → String → Result ParsedToken
checked_key (ok secret) t = parsed_text t
checked_key (err x) t = err x

abbrev pub signer : Library
signer = record library {
  sign = λ secret c. signed_text c;
  parse = λ now keys t. checked_key (keys hmac) t;
}

parsed-signed :
    (c : Claims) (t : String)
    → signed_text c ≡ ok t
    → parsed_text t ≡ ok (record { claims = c; valid = true })
parsed-signed c t p = elim (Bool-cases (same c access_claims)) [
  | inl q ↦
      let e : "access text" ≡ t = ground (arith, rw q at p) in
      ap parsed_text (sym e)
      ∙ ap (λ (x : Claims). ok (record { claims = x; valid = true }))
          (sym (same_eq c access_claims q))
  | inr q ↦ elim (Bool-cases (same c refresh_claims)) [
    | inl r ↦
        let e : "refresh text" ≡ t = ground (arith, rw r at (rw q at p)) in
        ap parsed_text (sym e)
        ∙ ap (λ (x : Claims). ok (record { claims = x; valid = true }))
            (sym (same_eq c refresh_claims r))
    | inr r ↦ absurd (ground (arith, rw r at (rw q at p)))
  ]
]

pub signer-Signs : Signs signer
unfolding hmac_key
signer-Signs = record { parses = λ secret c t now p q. parsed-signed c t p }
