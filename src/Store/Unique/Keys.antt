-- ===== src/Store/Unique/Keys.antt =====
-- The unique keys of the tables of users and tokens, row by row.
use go_agent_api.Base.{
  ℕ, Bool, true, false, not, ◌&&◌, ◌||◌, ==_iff, eq_iff, ◌==◌, List, [], ◌∷◌, map, ◌≡◌, ◌≢◌, refl,
  ap, sym, ◌∙◌, arith, any, All, Bool-cases, inl, inr,
}
use go_agent_api.Entity.User.{User}
use go_agent_api.Entity.Token.{Token}
use go_agent_api.Store.Users
use go_agent_api.Store.Tokens
use go_agent_api.Store.Unique.Apart.{Separate, Separate-map}

abbrev pub UsersApart : User → User → Type 0
UsersApart u v = (u.id ≢ v.id) × (u.email ≢ v.email)

abbrev pub TokensApart : Token → Token → Type 0
TokensApart s t = (s.id ≢ t.id) × (s.token_hash ≢ t.token_hash)

any_none :
    {A : Type 0} (p : A → Bool) (x : A) (xs : List A)
    → any p (x ∷ xs) ≡ false
    → (p x ≡ false) × (any p xs ≡ false)
any_none p x xs h = elim (Bool-cases (p x)) [
  | inl e ↦ absurd (ground (arith, rw e at h))
  | inr e ↦ (e, rw e at h)
]

clear_l : (a b : Bool) → (a || b) ≡ false → a ≢ true
clear_l true b p q = ground (arith, p)
clear_l false b p q = ground (arith, q)

clear_r : (a b : Bool) → (a || b) ≡ false → b ≢ true
clear_r true b p q = ground (arith, p)
clear_r false b p q = ground (arith, p, q)

pub user_free :
    (user : User) (us : List User)
    → any (λ u. Users.has_id user.id u || Users.has_email user.email u) us ≡ false
    → All (λ u. UsersApart u user) us
user_free user [] p = tt
user_free user (u ∷ us) p =
    let (a, b) = any_none _ u us p in
    (
      (
        λ e. clear_l _ _ a ((==_iff u.id user.id).1 e),
        λ e. clear_r _ _ a ((eq_iff u.email user.email).1 e),
      ),
      user_free user us b,
    )

pub token_free :
    (token : Token) (ts : List Token)
    → any (λ t. Tokens.has_id token.id t || Tokens.has_hash token.token_hash t) ts ≡ false
    → All (λ t. TokensApart t token) ts
token_free token [] p = tt
token_free token (t ∷ ts) p =
    let (a, b) = any_none _ t ts p in
    (
      (
        λ e. clear_l _ _ a ((==_iff t.id token.id).1 e),
        λ e. clear_r _ _ a ((eq_iff t.token_hash token.token_hash).1 e),
      ),
      token_free token ts b,
    )

unequal : (a b : ℕ) → (a == b) ≡ false → a ≢ b
unequal a b p q = ground (arith, p, q)

-- Where the row of an update is stored, no other row has its email.
pub others_free :
    (user : User) (us : List User)
    → any (λ u. Users.has_email user.email u && not (Users.has_id user.id u)) us ≡ false
    → All (λ u. u.id ≢ user.id → u.email ≢ user.email) us
others_free user [] p = tt
others_free user (u ∷ us) p =
    let (a, b) = any_none _ u us p in
    (
      λ q e. ground (arith, a, q, ==_iff u.id user.id, eq_iff u.email user.email, e),
      others_free user us b,
    )

pub update-apart :
    (now : ℕ) (user x y : User)
    → (x.id ≢ user.id → x.email ≢ user.email)
    → (y.id ≢ user.id → y.email ≢ user.email)
    → UsersApart x y
    → UsersApart (Users.update_row now user x) (Users.update_row now user y)
update-apart now user x y p q (a, b) = elim (Bool-cases (x.id == user.id)) [
  | inl e ↦ elim (Bool-cases (y.id == user.id)) [
    | inl d ↦ absurd (a ((==_iff x.id user.id).0 e ∙ sym ((==_iff y.id user.id).0 d)))
    | inr d ↦ rw (e, d) (a, λ h. q (unequal y.id user.id d) (sym h))
  ]
  | inr e ↦ elim (Bool-cases (y.id == user.id)) [
    | inl d ↦ rw (e, d) (a, p (unequal x.id user.id e))
    | inr d ↦ rw (e, d) (a, b)
  ]
]

-- An update of a row that is not there changes none.
pub update-absent :
    (now : ℕ) (user : User) (us : List User)
    → any (Users.has_id user.id) us ≡ false
    → map (Users.update_row now user) us ≡ us
update-absent now user [] p = refl
update-absent now user (u ∷ us) p =
    let (a, b) = any_none (Users.has_id user.id) u us p in
    rw a (ap (λ xs. u ∷ xs) (update-absent now user us b))

-- A change of tokens that keeps their keys.
pub keys-apart :
    (f : Token → Token) (ts : List Token)
    → ((t : Token) → ((f t).id ≡ t.id) × ((f t).token_hash ≡ t.token_hash))
    → Separate TokensApart ts
    → Separate TokensApart (map f ts)
keys-apart f ts same k =
    Separate-map TokensApart f (λ t. Unit {0})
      (λ x y p q (a, b).
        let (xi, xh) = same x in
        let (yi, yh) = same y in (λ e. a (sym xi ∙ (e ∙ yi)), λ e. b (sym xh ∙ (e ∙ yh))))
      ts (all_units ts) k
  where
    all_units : (ts : List Token) → All {0, 0} (λ t. Unit {0}) ts
    all_units [] = tt
    all_units (t ∷ ts) = (tt, all_units ts)

pub touched :
    (now time id : ℕ) (t : Token)
    → ((Tokens.touch_row now time id t).id ≡ t.id)
      × ((Tokens.touch_row now time id t).token_hash ≡ t.token_hash)
touched now time id t = elim (Bool-cases (t.id == id)) [
  | inl e ↦ rw e (refl, refl)
  | inr e ↦ rw e (refl, refl)
]

pub revoked :
    (now : ℕ) (test : Token → Bool) (t : Token)
    → ((Tokens.revoke_row now test t).id ≡ t.id)
      × ((Tokens.revoke_row now test t).token_hash ≡ t.token_hash)
revoked now test t = elim (Bool-cases (test t)) [
  | inl e ↦ rw e (refl, refl)
  | inr e ↦ rw e (refl, refl)
]
