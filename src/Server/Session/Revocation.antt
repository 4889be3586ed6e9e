-- ===== src/Server/Session/Revocation.antt =====
-- A session that is logged out stays refused (crates/skb-server/src/auth.rs).
use surreal_knowledge_base.Base.{
  ℕ, ◌≤◌, ◌<◌, ◌^◌, not, ◌≡◌, refl, sym, subst, Text, lit, text_eq, text_eq_self, Option, List, [],
  ◌∷◌, true, ◌&&◌, any_by, Bool-cases, inl, inr, arith,
}
use surreal_knowledge_base.Base.Int.{as_i64, ltb_int, ltb_int-as_i64, ltb_int_self}
use surreal_knowledge_base.Error.{Outcome, ok, err, panic, out_of_fuel, ok_or, >>=-eq-ok}
use surreal_knowledge_base.Config.Env.{Env}
use surreal_knowledge_base.Search.Filter.{Query}
use surreal_knowledge_base.Server.Error.{ApiError}
use surreal_knowledge_base.Server.Auth.{
  Claims, Headers, jwt_secret, request_token, unauthorized, session_revoked, authenticate,
}
use surreal_knowledge_base.Server.Session.{
  RevokedSession, Table, sessions_with, create_revoked, delete_expired, session_claims, statement,
  and_then, Answers, logout_of, logout,
}

-- The table after any number of logouts, of any sessions and with any outcome, none of them later
-- than a time.
pub data Later (time : ℕ) : Table → Table → Type 0 where
  at_once : {table : Table} → Later time table table
  after_logout :
      {s u : Table} (env : Env) (decode : Text → Text → Option Claims) (answers : Answers)
      (headers : Headers)
      → answers.now ≤ time
      → Later time (logout env decode answers headers s).1 u
      → Later time s u

-- The table holds a session in a row that does not expire before a time.
abbrev IsRevoked : Text → ℕ → Table → Type 0
IsRevoked jti time table =
    any_by (λ r. text_eq r.jti jti && not (ltb_int r.exp (as_i64 time))) table ≡ true

create_revoked-IsRevoked :
    (jti : Text) (time : ℕ) (claims : Claims) (table : Table)
    → IsRevoked jti time table
    → IsRevoked jti time (create_revoked claims table)
create_revoked-IsRevoked jti time claims table h = ground arith

delete_expired-IsRevoked :
    (jti : Text) (time now : ℕ) (table : Table)
    → now ≤ time
    → time < 2 ^ 63
    → IsRevoked jti time table
    → IsRevoked jti time (delete_expired now table)
delete_expired-IsRevoked jti time now [] le small h = h
delete_expired-IsRevoked jti time now (r ∷ table) le small h =
    elim (Bool-cases (ltb_int r.exp (as_i64 now))) [
      | inl expired ↦
          let later = ltb_int-as_i64 r.exp now time le small expired in
          rw expired (delete_expired-IsRevoked jti time now table le small (ground arith))
      | inr kept ↦ rw kept (ground (arith, delete_expired-IsRevoked jti time now table le small))
    ]

statement-keeps :
    (P : Table → Type 0) (label : Text) (answer : Query (Unit {0})) (effect : Table → Table)
    (table : Table)
    → P table
    → P (effect table)
    → P (statement label answer effect table).1
unfolding statement
statement-keeps P label (ok (ok _)) effect table h k = k
statement-keeps P label (ok (err _)) effect table h k = h
statement-keeps P label (ok panic) effect table h k = h
statement-keeps P label (ok out_of_fuel) effect table h k = h
statement-keeps P label (err _) effect table h k = h
statement-keeps P label panic effect table h k = h
statement-keeps P label out_of_fuel effect table h k = h

and_then-keeps :
    (P : Table → Type 0) (first : Outcome ApiError (Unit {0}) × Table)
    (next : Table → Outcome ApiError (Unit {0}) × Table)
    → P first.1
    → ((table : Table) → P table → P (next table).1)
    → P (and_then first next).1
unfolding and_then
and_then-keeps P (ok _, table) next h k = k table h
and_then-keeps P (err _, table) next h k = h
and_then-keeps P (panic, table) next h k = h
and_then-keeps P (out_of_fuel, table) next h k = h

logout_of-IsRevoked :
    (jti : Text) (exp : ℕ) (answers : Answers) (claims : Outcome ApiError Claims) (table : Table)
    → answers.now ≤ exp
    → exp < 2 ^ 63
    → IsRevoked jti exp table
    → IsRevoked jti exp (logout_of answers claims table).1
unfolding logout_of
logout_of-IsRevoked jti exp answers (ok claims) table le small h =
    and_then-keeps (IsRevoked jti exp) _ _
      (statement-keeps (IsRevoked jti exp) (lit "logout revoke") answers.created
        (create_revoked claims) table h (create_revoked-IsRevoked jti exp claims table h))
      (λ t k.
        statement-keeps (IsRevoked jti exp) (lit "logout purge") answers.deleted
          (delete_expired answers.now) t k
          (delete_expired-IsRevoked jti exp answers.now t le small k))
logout_of-IsRevoked jti exp answers (err _) table le small h = h
logout_of-IsRevoked jti exp answers panic table le small h = h
logout_of-IsRevoked jti exp answers out_of_fuel table le small h = h

Later-IsRevoked :
    (jti : Text) (exp : ℕ) {s u : Table}
    → exp < 2 ^ 63
    → Later exp s u
    → IsRevoked jti exp s
    → IsRevoked jti exp u
unfolding logout
Later-IsRevoked jti exp small at_once h = h
Later-IsRevoked jti exp small (after_logout {s} env decode answers headers le later) h =
    Later-IsRevoked jti exp small later
      (logout_of-IsRevoked jti exp answers (session_claims env decode headers) s le small h)

statement-ok :
    (label : Text) (answer : Query (Unit {0})) (effect : Table → Table) (table : Table)
    → (statement label answer effect table).0 ≡ ok tt
    → (statement label answer effect table).1 ≡ effect table
unfolding statement
statement-ok label (ok (ok _)) effect table h = refl
statement-ok label (ok (err _)) effect table h = cc
statement-ok label (ok panic) effect table h = cc
statement-ok label (ok out_of_fuel) effect table h = cc
statement-ok label (err _) effect table h = cc
statement-ok label panic effect table h = cc
statement-ok label out_of_fuel effect table h = cc

and_then-ok :
    (first : Outcome ApiError (Unit {0}) × Table)
    (next : Table → Outcome ApiError (Unit {0}) × Table)
    → (and_then first next).0 ≡ ok tt
    → (first.0 ≡ ok tt) × (and_then first next ≡ next first.1)
unfolding and_then
and_then-ok (ok tt, table) next h = (refl, refl)
and_then-ok (err e, table) next h = cc
and_then-ok (panic, table) next h = cc
and_then-ok (out_of_fuel, table) next h = cc

-- A logout that succeeds leaves its own session in the table.
logout_of-ok :
    (answers : Answers) (claims : Claims) (table : Table)
    → answers.now ≤ claims.exp
    → claims.exp < 2 ^ 63
    → (logout_of answers (ok claims) table).0 ≡ ok tt
    → IsRevoked claims.jti claims.exp (logout_of answers (ok claims) table).1
unfolding logout_of
logout_of-ok answers claims table le small h =
    let first = statement (lit "logout revoke") answers.created (create_revoked claims) table in
    let next = statement (lit "logout purge") answers.deleted (delete_expired answers.now) in
    let (created, whole) = and_then-ok first next h in
    let held : IsRevoked claims.jti claims.exp first.1 =
      subst (IsRevoked claims.jti claims.exp)
        (sym (
          statement-ok (lit "logout revoke") answers.created (create_revoked claims) table created))
        (newest claims table) in
    subst (λ r. IsRevoked claims.jti claims.exp r.1) (sym whole)
      (statement-keeps (IsRevoked claims.jti claims.exp) (lit "logout purge") answers.deleted
        (delete_expired answers.now) first.1 held
        (delete_expired-IsRevoked claims.jti claims.exp answers.now first.1 le small held))
  where
    newest :
        (claims : Claims) (table : Table)
        → IsRevoked claims.jti claims.exp (create_revoked claims table)
    newest claims table = rw (text_eq_self claims.jti, ltb_int_self (as_i64 claims.exp)) refl

sessions_with-found :
    (jti : Text) (exp : ℕ) (table : Table)
    → IsRevoked jti exp table
    → (r : RevokedSession) × (sessions_with jti table ≡ r ∷ [])
sessions_with-found jti exp [] h = cc
sessions_with-found jti exp (r ∷ table) h = elim (Bool-cases (text_eq r.jti jti)) [
  | inl here ↦ rw here (r, refl)
  | inr other ↦ rw other (sessions_with-found jti exp table (ground arith))
]

refused :
    {A : Type 0} (env : Env) (decode : Text → Text → Option Claims)
    (revoked : Text → Query (List A)) (headers : Headers) (secret token : Text) (claims : Claims)
    → jwt_secret env ≡ ok secret
    → ok_or (unauthorized (lit "missing session token")) (request_token headers) ≡ ok token
    → ok_or (unauthorized (lit "invalid or expired session token")) (decode token secret)
      ≡ ok claims
    → session_revoked revoked claims.jti ≡ ok true
    → authenticate env decode revoked headers ≡ err (unauthorized (lit "session revoked"))
unfolding authenticate
refused env decode revoked headers secret token claims s t q r = rw (s, t, q, r)

-- Once a request's session is logged out, before its expiry, which is below 2^63, a request with it is
-- refused as revoked, whatever logouts of any sessions come between, up to the expiry.
pub logout_refuses :
    (env : Env) (decode : Text → Text → Option Claims) (answers : Answers) (headers : Headers)
    (claims : Claims) (table u : Table)
    → session_claims env decode headers ≡ ok claims
    → claims.exp < 2 ^ 63
    → answers.now ≤ claims.exp
    → (logout env decode answers headers table).0 ≡ ok tt
    → Later claims.exp (logout env decode answers headers table).1 u
    → authenticate env decode (λ jti. ok (ok (sessions_with jti u))) headers
      ≡ err (unauthorized (lit "session revoked"))
unfolding logout session_claims authenticate session_revoked
logout_refuses env decode answers headers claims table u known small le h later =
    let (secret, s, p) = >>=-eq-ok (jwt_secret env) _ known in
    let (token, t, q) =
      >>=-eq-ok (ok_or (unauthorized (lit "missing session token")) (request_token headers)) _ p in
    let held = logout_of-ok answers claims table le small (rw known at h) in
    let kept = Later-IsRevoked claims.jti claims.exp small later (
      subst (λ o. IsRevoked claims.jti claims.exp (logout_of answers o table).1) (sym known)
        held) in
    let (r, found) = sessions_with-found claims.jti claims.exp u kept in
    refused env decode (λ jti. ok (ok (sessions_with jti u))) headers secret token claims s t q
      (rw found)
