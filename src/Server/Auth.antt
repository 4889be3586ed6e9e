-- ===== src/Server/Auth.antt =====
-- Sessions and roles of crates/skb-server/src/auth.rs: the checks between a request and an
-- `AuthUser`, and the role that a registration gives. Decoding a token is the `jsonwebtoken` crate's,
-- and a parameter, as is the table of revoked sessions.
pub mod Access
use surreal_knowledge_base.Base.{
  ℕ, ◌+◌, ◌≤◌, ◌≡◌, refl, sym, ap, ◌∙◌, subst, Text, lit, byte_len, text_eq, text_eq_iff, trim,
  split, split_once, strip_prefix, is_empty, Option, none, some, List, [], ◌∷◌, ◌++◌, map,
  filter_by, Bool, true, false, not, ◌&&◌, ltb, ◌==◌, if◌then◌else◌, Bool-cases, Option-cases, inl,
  inr, arith, tests,
}
use surreal_knowledge_base.Error.{
  ErrorCode, skb_error, Outcome, ok, err, panic, out_of_fuel, ◌>>=◌, map_err, ok_or, >>=-eq-ok,
  ok-injective,
}
use surreal_knowledge_base.Config.Env.{Env, Var, present, not_present, not_unicode}
use surreal_knowledge_base.Search.Hits.{text_or_empty}
use surreal_knowledge_base.Search.Filter.{Query, fetch}
use surreal_knowledge_base.Server.Error.{ApiError, api_error, with_status}

abbrev pub jwt_secret_min_len : ℕ
jwt_secret_min_len = 32

pub record Claims : Type 0 where
  pub sub : Text
  pub role : Text
  pub jti : Text
  pub exp : ℕ

pub record AuthUser : Type 0 where
  pub email : Text
  pub role : Text

unfoldable pub secret_unconfigured : ApiError
secret_unconfigured =
    with_status
      (skb_error ErrorCode.config
        (lit "SKB_SERVER_JWT_SECRET is not set; authenticated endpoints are unavailable"))
      503

unfoldable pub unauthorized : Text → ApiError
unauthorized message = with_status (skb_error ErrorCode.validation message) 401

unfoldable pub secret_too_short : ApiError
secret_too_short =
    with_status
      (skb_error ErrorCode.config (
        lit
          "SKB_SERVER_JWT_SECRET must be at least 32 characters to resist brute-forced HS256 tokens"))
      503

secret_of : Var → Outcome ApiError Text
secret_of (present secret) =
    if ltb (byte_len secret) jwt_secret_min_len then err secret_too_short else ok secret
secret_of not_present = err secret_unconfigured
secret_of not_unicode = err secret_unconfigured

unfoldable pub jwt_secret : Env → Outcome ApiError Text
unfolding secret_of
jwt_secret env = secret_of (env "SKB_SERVER_JWT_SECRET")

-- What a request has in its two headers, where they are readable text.
pub record Headers : Type 0 where
  pub cookie : Option Text
  pub authorization : Option Text

or_else : Option Text → Option Text → Option Text
or_else none o = o
or_else (some t) o = some t

-- The first pair of the cookies that is the session's.
session_cookie : List Text → Option Text
session_cookie [] = none
session_cookie (pair ∷ pairs) =
    let rest = session_cookie pairs in or_else (strip_prefix (lit "skb_session=") (trim pair)) rest

cookie_token : Option Text → Option Text
unfolding session_cookie
cookie_token none = none
cookie_token (some cookies) = session_cookie (split (λ c. c == b';') cookies)

bearer_token : Option Text → Option Text
bearer_token none = none
bearer_token (some v) = strip_prefix (lit "Bearer ") v

-- `request_token_from_headers`
unfoldable pub request_token : Headers → Option Text
unfolding cookie_token bearer_token or_else
request_token h = or_else (cookie_token h.cookie) (bearer_token h.authorization)

has_rows : {A : Type 0} → List A → Bool
has_rows [] = false
has_rows (_ ∷ _) = true

unfoldable pub session_revoked :
    {A : Type 0} → (Text → Query (List A)) → Text → Outcome ApiError Bool
unfolding has_rows
session_revoked revoked jti = do
  rows ← map_err api_error (fetch (lit "revoke lookup") (revoked jti))
  ok (has_rows rows)

user_of : Claims → Bool → Outcome ApiError AuthUser
user_of claims true = err (unauthorized (lit "session revoked"))
user_of claims false = ok (record { email = claims.sub; role = claims.role })

-- `AuthUser::from_request_parts`; `decode` gives the claims of a token that is valid under a secret.
unfoldable pub authenticate :
    {A : Type 0}
    → Env
    → (Text → Text → Option Claims)
    → (Text → Query (List A))
    → Headers
    → Outcome ApiError AuthUser
unfolding user_of
authenticate env decode revoked headers = do
  secret ← jwt_secret env
  token ← ok_or (unauthorized (lit "missing session token")) (request_token headers)
  claims ← ok_or (unauthorized (lit "invalid or expired session token")) (decode token secret)
  is_revoked ← session_revoked revoked claims.jti
  user_of claims is_revoked

-- `AuthUser::require_author`
unfoldable pub require_author : AuthUser → Outcome ApiError AuthUser
require_author u =
    if text_eq u.role (lit "author") then ok u else err (unauthorized (lit "author role required"))

listed_pairs : List Text → List (Text × Text)
listed_pairs [] = []
listed_pairs (entry ∷ entries) = elim (split_once b':' (trim entry)) [
  | none ↦ listed_pairs entries
  | some pair ↦ pair ∷ listed_pairs entries
]

invites_of : Var → List (Text × Text)
unfolding listed_pairs
invites_of (present raw) =
    filter_by (λ e. not (is_empty e.0) && not (is_empty e.1))
      (listed_pairs (split (λ c. c == b',') raw))
invites_of not_present = []
invites_of not_unicode = []

unfoldable pub author_invites : Env → List (Text × Text)
unfolding invites_of
author_invites env = invites_of (env "SKB_SERVER_AUTHOR_INVITES")

unfoldable pub invite_matches : Text → Text → Bool
invite_matches provided expected =
    (byte_len provided == byte_len expected) && text_eq provided expected

unfoldable pub find_invite : Text → List (Text × Text) → Option (Text × Text)
find_invite email [] = none
find_invite email ((listed, token) ∷ invites) =
    let rest = find_invite email invites in
    if text_eq listed email then some (listed, token) else rest

role_of_invite : Option Text → Option (Text × Text) → Text
role_of_invite invite none = lit "reader"
role_of_invite invite (some (_, expected)) =
    if invite_matches (text_or_empty invite) expected then lit "author" else lit "reader"

-- The role that `register` gives.
unfoldable pub registered_role : Env → Text → Option Text → Text
unfolding role_of_invite
registered_role env email invite = role_of_invite invite (find_invite email (author_invites env))
