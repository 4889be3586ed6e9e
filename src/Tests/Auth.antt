-- ===== src/Tests/Auth.antt =====
-- A session and an invited author (crates/skb-server/src/auth.rs).
use surreal_knowledge_base.Base.{
  arith, ◌≡◌, refl, Text, lit, byte_len, text_eq, trim, trim_start, trim_end, is_whitespace, split,
  split_once, strip_prefix, is_empty, Option, none, some, List, [], false, if◌then◌else◌,
}
use surreal_knowledge_base.Error.{ok, err}
use surreal_knowledge_base.Config.Env.{Env, present, not_present}
use surreal_knowledge_base.Search.Filter.{Query}
use surreal_knowledge_base.Server.Auth.{
  unauthorized, Claims, AuthUser, Headers, jwt_secret, request_token, session_revoked, authenticate,
  author_invites, invite_matches, find_invite, registered_role,
}
use surreal_knowledge_base.Server.Session.{Table, Answers, sessions_with, session_claims, logout}
use surreal_knowledge_base.Server.Session.Revocation.{Later, logout_refuses}
use surreal_knowledge_base.Server.Auth.Access.{
  IsSession, authenticate-IsSession, registered_role-author,
}

abbrev variables : Env
variables key =
    if text_eq (lit key) (lit "SKB_SERVER_JWT_SECRET")
    then present (lit "0123456789abcdef0123456789abcdef")
    else if text_eq (lit key) (lit "SKB_SERVER_AUTHOR_INVITES")
    then present (lit "bob@x.org:, ann@x.org:t0ken")
    else not_present

abbrev ann_claims : Claims
ann_claims = record { sub = lit "ann@x.org"; role = lit "author"; jti = lit "1"; exp = 9 }

abbrev decode_ann : Text → Text → Option Claims
decode_ann token secret = if text_eq token (lit "abc") then some ann_claims else none

abbrev none_revoked : Text → Query (List Text)
none_revoked jti = ok (ok [])

abbrev request : Headers
request = record { cookie = some (lit "theme=dark; skb_session=abc"); authorization = none }

abbrev ann : AuthUser
ann = record { email = lit "ann@x.org"; role = lit "author" }

authenticate_test : authenticate variables decode_ann none_revoked request ≡ ok ann
unfolding authenticate jwt_secret lit text_eq byte_len request_token split trim trim_start trim_end
    is_whitespace strip_prefix session_revoked
authenticate_test = refl

authenticate-IsSession_example : IsSession variables decode_ann none_revoked request ann
authenticate-IsSession_example =
    authenticate-IsSession variables decode_ann none_revoked request ann authenticate_test

role_test : registered_role variables (lit "ann@x.org") (some (lit "t0ken")) ≡ lit "author"
unfolding registered_role author_invites find_invite invite_matches lit text_eq byte_len split
    split_once trim trim_start trim_end is_whitespace
role_test = refl

registered_role-author_example :
    (token : Text) × (some (lit "t0ken") ≡ some token)
    × (is_empty token ≡ false)
    × (find_invite (lit "ann@x.org") (author_invites variables) ≡ some (lit "ann@x.org", token))
registered_role-author_example =
    registered_role-author variables (lit "ann@x.org") (some (lit "t0ken")) role_test

abbrev answers : Answers
answers = record { created = ok (ok tt); deleted = ok (ok tt); now = 5 }

session_claims_test : session_claims variables decode_ann request ≡ ok ann_claims
unfolding session_claims jwt_secret lit text_eq byte_len request_token split trim trim_start
    trim_end is_whitespace strip_prefix
session_claims_test = refl

logout_test : (logout variables decode_ann answers request []).0 ≡ ok tt
unfolding logout session_claims jwt_secret lit text_eq byte_len request_token split trim trim_start
    trim_end is_whitespace strip_prefix
logout_test = refl

-- The session is logged out twice.
abbrev after_two : Table
after_two =
    (logout variables decode_ann answers request
      (logout variables decode_ann answers request []).1).1

logout_refuses_example :
    authenticate variables decode_ann (λ jti. ok (ok (sessions_with jti after_two))) request
    ≡ err (unauthorized (lit "session revoked"))
logout_refuses_example =
    logout_refuses variables decode_ann answers request ann_claims [] after_two session_claims_test
      (omega arith) (omega arith) logout_test
      (Later.after_logout variables decode_ann answers request (omega arith) Later.at_once)
