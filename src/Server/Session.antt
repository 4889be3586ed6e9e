-- ===== src/Server/Session.antt =====
-- `logout` of crates/skb-server/src/auth.rs over the table of revoked sessions, and the lookup of a
-- session in it, as their queries say.
pub mod Revocation
use surreal_knowledge_base.Base.{ℕ, Text, lit, text_eq, Option, List, ◌∷◌, filter_by, take, not}
use surreal_knowledge_base.Base.Int.{ℤ, as_i64, ltb_int}
use surreal_knowledge_base.Error.{Outcome, ok, err, panic, out_of_fuel, ◌>>=◌, map_err, ok_or}
use surreal_knowledge_base.Config.Env.{Env}
use surreal_knowledge_base.Search.Filter.{Query, fetch}
use surreal_knowledge_base.Server.Error.{ApiError, api_error}
use surreal_knowledge_base.Server.Auth.{Claims, Headers, jwt_secret, request_token, unauthorized}

pub record RevokedSession : Type 0 where
  pub jti : Text
  pub exp : ℤ

abbrev pub Table : Type 0
Table = List RevokedSession

-- `SELECT id FROM revoked_session WHERE jti = $jti LIMIT 1`
abbrev pub sessions_with : Text → Table → List RevokedSession
sessions_with jti table = take 1 (filter_by (λ r. text_eq r.jti jti) table)

-- `CREATE revoked_session SET jti = $jti, exp = $exp`, with `exp as i64`.
abbrev pub create_revoked : Claims → Table → Table
create_revoked claims table = record { jti = claims.jti; exp = as_i64 claims.exp } ∷ table

-- `DELETE FROM revoked_session WHERE exp < $now`, with the time as `i64`.
abbrev pub delete_expired : ℕ → Table → Table
delete_expired now table = filter_by (λ r. not (ltb_int r.exp (as_i64 now))) table

-- The claims of the session that a request has.
unfoldable pub session_claims :
    Env → (Text → Text → Option Claims) → Headers → Outcome ApiError Claims
session_claims env decode headers = do
  secret ← jwt_secret env
  token ← ok_or (unauthorized (lit "missing session token")) (request_token headers)
  ok_or (unauthorized (lit "invalid or expired session token")) (decode token secret)

-- A statement on the table: what the database answers decides whether it has its effect.
statement : Text → Query (Unit {0}) → (Table → Table) → Table → Outcome ApiError (Unit {0}) × Table
statement label (ok (ok _)) effect table = (ok tt, effect table)
statement label answer effect table = (map_err api_error (fetch label answer), table)

and_then :
    Outcome ApiError (Unit {0}) × Table
    → (Table → Outcome ApiError (Unit {0}) × Table)
    → Outcome ApiError (Unit {0}) × Table
and_then (ok _, table) next = next table
and_then (err e, table) next = (err e, table)
and_then (panic, table) next = (panic, table)
and_then (out_of_fuel, table) next = (out_of_fuel, table)

-- What the database answers to the two statements of a logout, and the time at the second.
pub record Answers : Type 0 where
  pub created : Query (Unit {0})
  pub deleted : Query (Unit {0})
  pub now : ℕ

logout_of : Answers → Outcome ApiError Claims → Table → Outcome ApiError (Unit {0}) × Table
unfolding statement and_then
logout_of answers (ok claims) table =
    and_then (statement (lit "logout revoke") answers.created (create_revoked claims) table)
      (statement (lit "logout purge") answers.deleted (delete_expired answers.now))
logout_of answers (err e) table = (err e, table)
logout_of answers panic table = (panic, table)
logout_of answers out_of_fuel table = (out_of_fuel, table)

-- `logout`: its answer, and the table after it.
unfoldable pub logout :
    Env
    → (Text → Text → Option Claims)
    → Answers
    → Headers
    → Table
    → Outcome ApiError (Unit {0}) × Table
unfolding logout_of
logout env decode answers headers table =
    logout_of answers (session_claims env decode headers) table
