-- ===== src/Server/Auth/Access.antt =====
-- What a session and a role rest on (crates/skb-server/src/auth.rs).
use surreal_knowledge_base.Base.{
  All, ◌≢◌, false≢true, ◌≤◌, ◌≡◌, refl, sym, ap, ◌∙◌, subst, Text, lit, byte_len, text_eq,
  text_eq_iff, split, is_empty, Option, none, some, List, [], ◌∷◌, filter_by, Bool, true, false,
  not, ◌&&◌, ltb, ◌==◌, Bool-cases, inl, inr, arith, tests,
}
use surreal_knowledge_base.Error.{
  ok, ok_or, >>=-eq-ok, ok-injective, map_err, map_err-eq-ok, checked-eq-ok,
}
use surreal_knowledge_base.Config.Env.{Env, Var, present, not_present, not_unicode}
use surreal_knowledge_base.Search.Hits.{text_or_empty}
use surreal_knowledge_base.Search.Filter.{Query, fetch}
use surreal_knowledge_base.Server.Error.{api_error}
use surreal_knowledge_base.Server.Auth.{
  jwt_secret_min_len, Claims, AuthUser, unauthorized, secret_of, jwt_secret, Headers, request_token,
  has_rows, session_revoked, user_of, authenticate, invites_of, author_invites, invite_matches,
  find_invite, role_of_invite, registered_role, listed_pairs,
}

secret_of-ok :
    (v : Var) (secret : Text)
    → secret_of v ≡ ok secret
    → (v ≡ present secret) × (jwt_secret_min_len ≤ byte_len secret)
unfolding secret_of
secret_of-ok not_present secret h = cc
secret_of-ok not_unicode secret h = cc
secret_of-ok (present t) secret h = elim (Bool-cases (ltb (byte_len t) jwt_secret_min_len)) [
  | inl short ↦ absurd (ground arith)
  | inr long ↦
      let same : t ≡ secret = ground arith in
      (ap present same, subst (λ t. jwt_secret_min_len ≤ byte_len t) same (omega tests))
]

ok_or-some : {E A : Type 0} (e : E) (o : Option A) (a : A) → ok_or e o ≡ ok a → o ≡ some a
ok_or-some e none a h = cc
ok_or-some e (some b) a h = ap some (ok-injective h)

user_of-ok :
    (claims : Claims) (is_revoked : Bool) (user : AuthUser)
    → user_of claims is_revoked ≡ ok user
    → (is_revoked ≡ false) × (user ≡ record { email = claims.sub; role = claims.role })
unfolding user_of
user_of-ok claims true user h = cc
user_of-ok claims false user h = (refl, sym (ok-injective h))

-- The lookup says that a session is not revoked only if it was answered with no row.
session_revoked-none :
    {A : Type 0} (revoked : Text → Query (List A)) (jti : Text)
    → session_revoked revoked jti ≡ ok false
    → revoked jti ≡ ok (ok [])
unfolding session_revoked
session_revoked-none revoked jti h =
    let (rows, answered, h) =
      >>=-eq-ok (map_err api_error (fetch (lit "revoke lookup") (revoked jti))) _ h in
    checked-eq-ok _ _ (revoked jti) rows
      (map_err-eq-ok api_error (fetch (lit "revoke lookup") (revoked jti)) rows answered)
    ∙ ap (λ r. ok (ok r)) (no_rows rows (ok-injective h))
  where
    no_rows : {A : Type 0} (rows : List A) → has_rows rows ≡ false → rows ≡ []
    no_rows [] h = refl
    no_rows (_ ∷ _) h = cc

-- What a session rests on: a configured secret of at least 32 bytes, a token in the request that is
-- valid under it, and a lookup of its revocation that was answered, with no row.
pub record IsSession {A : Type 0} (env : Env) (decode : Text → Text → Option Claims)
    (revoked : Text → Query (List A)) (headers : Headers) (user : AuthUser) : Type 0 where
  pub secret : Text
  pub token : Text
  pub claims : Claims
  pub configured : env "SKB_SERVER_JWT_SECRET" ≡ present secret
  pub strong : jwt_secret_min_len ≤ byte_len secret
  pub presented : request_token headers ≡ some token
  pub valid : decode token secret ≡ some claims
  pub not_revoked : revoked claims.jti ≡ ok (ok [])
  pub named : user ≡ record { email = claims.sub; role = claims.role }

-- A request is authenticated only with a token that is valid under the configured secret, which has
-- at least 32 bytes, and if the lookup of its id among the revoked sessions succeeds and finds no row;
-- the user is the one that the token's claims name.
pub authenticate-IsSession :
    {A : Type 0} (env : Env) (decode : Text → Text → Option Claims)
    (revoked : Text → Query (List A)) (headers : Headers) (user : AuthUser)
    → authenticate env decode revoked headers ≡ ok user
    → IsSession env decode revoked headers user
unfolding authenticate jwt_secret
authenticate-IsSession env decode revoked headers user h =
    let (secret, read, h) = >>=-eq-ok (secret_of (env "SKB_SERVER_JWT_SECRET")) _ h in
    let (token, found, h) =
      >>=-eq-ok (ok_or (unauthorized (lit "missing session token")) (request_token headers)) _ h in
    let (claims, decoded, h) =
      >>=-eq-ok
        (ok_or (unauthorized (lit "invalid or expired session token")) (decode token secret)) _ h in
    let (is_revoked, looked_up, h) = >>=-eq-ok (session_revoked revoked claims.jti) _ h in
    let (configured, strong) = secret_of-ok (env "SKB_SERVER_JWT_SECRET") secret read in
    let (current, named) = user_of-ok claims is_revoked user h in
    record {
      secret = secret;
      token = token;
      claims = claims;
      configured = configured;
      strong = strong;
      presented = ok_or-some _ (request_token headers) token found;
      valid = ok_or-some _ (decode token secret) claims decoded;
      not_revoked = session_revoked-none revoked claims.jti (looked_up ∙ ap ok current);
      named = named;
    }

-- What an invite is found to be: one of the list, for the email that was asked for.
find_invite-listed :
    (email : Text) (invites : List (Text × Text)) (i : Text × Text)
    → find_invite email invites ≡ some i
    → i.0 ≡ email
unfolding find_invite
find_invite-listed email [] i h = cc
find_invite-listed email ((listed, token) ∷ invites) i h =
    elim (Bool-cases (text_eq listed email)) [
      | inl same ↦
          let first : (listed, token) ≡ i = ground arith in
          sym (ap (λ p. p.0) first) ∙ (text_eq_iff listed email).0 same
      | inr other ↦ find_invite-listed email invites i (ground arith)
    ]

AllTokens : List (Text × Text) → Type 0
AllTokens invites = All (λ i. is_empty i.1 ≡ false) invites

filter-AllTokens :
    (pairs : List (Text × Text))
    → AllTokens (filter_by (λ e. not (is_empty e.0) && not (is_empty e.1)) pairs)
unfolding AllTokens
filter-AllTokens [] = tt
filter-AllTokens ((email, token) ∷ pairs) = ground (arith, filter-AllTokens pairs)

invites_of-AllTokens : (v : Var) → AllTokens (invites_of v)
unfolding invites_of AllTokens
invites_of-AllTokens (present raw) = filter-AllTokens (listed_pairs (split (λ c. c == b',') raw))
invites_of-AllTokens not_present = tt
invites_of-AllTokens not_unicode = tt

find_invite-token :
    (email : Text) (invites : List (Text × Text)) (i : Text × Text)
    → AllTokens invites
    → find_invite email invites ≡ some i
    → is_empty i.1 ≡ false
unfolding find_invite AllTokens
find_invite-token email [] i tokens h = cc
find_invite-token email ((listed, token) ∷ invites) i (here, tokens) h =
    elim (Bool-cases (text_eq listed email)) [
      | inl same ↦
          let first : (listed, token) ≡ i = ground arith in
          subst (λ p. is_empty p.1 ≡ false) first here
      | inr other ↦ find_invite-token email invites i tokens (ground arith)
    ]

given :
    (invite : Option Text) (t : Text)
    → is_empty t ≡ false
    → text_or_empty invite ≡ t
    → invite ≡ some t
given none t h e = absurd (ground arith)
given (some u) t h e = ap some e

reader_ne_author : lit "reader" ≢ lit "author"
unfolding lit text_eq
reader_ne_author h = false≢true (ap (λ t. text_eq t (lit "author")) h)

role_of_invite-author :
    (invite : Option Text) (o : Option (Text × Text))
    → role_of_invite invite o ≡ lit "author"
    → (i : Text × Text) × (o ≡ some i) × (text_or_empty invite ≡ i.1)
unfolding role_of_invite invite_matches
role_of_invite-author invite none h = absurd (reader_ne_author h)
role_of_invite-author invite (some (listed, token)) h =
    elim (Bool-cases
      (byte_len (text_or_empty invite) == byte_len token && text_eq (text_or_empty invite) token)) [
        | inl matches ↦
            ((listed, token), refl, (text_eq_iff (text_or_empty invite) token).0 (ground arith))
        | inr differs ↦ absurd (reader_ne_author (rw differs at h))
      ]

-- A registration gives the role of an author only to a request that presents a token that is not
-- empty and that the invites of the environment list for just that email.
pub registered_role-author :
    (env : Env) (email : Text) (invite : Option Text)
    → registered_role env email invite ≡ lit "author"
    → (token : Text) × (invite ≡ some token)
      × (is_empty token ≡ false)
      × (find_invite email (author_invites env) ≡ some (email, token))
unfolding registered_role author_invites
registered_role-author env email invite h =
    let invites = invites_of (env "SKB_SERVER_AUTHOR_INVITES") in
    let ((listed, token), found, same) =
      role_of_invite-author invite (find_invite email invites) h in
    let some_token =
      find_invite-token email invites (listed, token) (invites_of-AllTokens _) found in
    let for_email = find_invite-listed email invites (listed, token) found in
    (
      token,
      given invite token some_token same,
      some_token,
      found ∙ ap (λ l. some (l, token)) for_email,
    )
