-- ===== src/Ingest/Fetch.antt =====
-- `fetch_url` of crates/skb-core/src/ingest.rs, its checks of a host, and the resolver that drops
-- blocked addresses. The URL parser, the DNS, the HTTP client and the clock are parameters; what they
-- answer can differ from one attempt to the next.
pub mod Guard
use surreal_knowledge_base.Base.{
  ℕ, zero, suc, ◌+◌, ◌%◌, ◌^◌, Text, lit, show, text_eq, trim, split, Bool, true, ◌&&◌, ◌||◌, ◌==◌,
  not, leb, ltb, Option, none, some, List, [], ◌∷◌, ◌++◌, length, filter_by, if◌then◌else◌,
}
use surreal_knowledge_base.Error.{
  ErrorCode, SkbError, skb_error, Outcome, ok, err, panic, out_of_fuel, ◌>>=◌, ◌>>◌, map_err, ok_or,
}
use surreal_knowledge_base.Config.{Config, invalid, reject_if}
use surreal_knowledge_base.Search.Hits.{unwrap_or}
use surreal_knowledge_base.Ingest.Address.{Ip, is_blocked_ip}
use surreal_knowledge_base.Ingest.Size.{max_upload_bytes}

abbrev pub max_redirects : ℕ
max_redirects = 5

abbrev pub Bytes : Type 0
Bytes = List ℕ

-- What the code reads of a `Url`.
pub record Url : Type 0 where
  pub scheme : Text
  pub host : Option Text
  pub port : Option ℕ
  pub text : Text

-- Reading a body fails at the limit given to the client, or otherwise.
pub data ReadError : Type 0 where
  body_exceeds_limit : ReadError
  other : Text → ReadError

pub record Response : Type 0 where
  pub status : ℕ
  pub location : Option Text
  pub content_type : Option Text
  pub read : ℕ → Outcome ReadError Bytes

-- The world of a fetch; a number is the attempt, from 0.
pub record Network : Type 0 where
  -- The time that is left, at least 0.
  pub remaining : ℕ → ℕ
  pub parse_url : Text → Outcome Text Url
  pub join : Url → Text → Outcome Text Url
  -- The addresses of a host and port, asked for in the check.
  pub lookup : ℕ → Text → ℕ → Outcome Text (List Ip)
  -- The answer of the client's default resolver.
  pub resolve : ℕ → Text → Outcome Text (List Ip)
  -- A request to a URL over a connection to one of the addresses.
  pub get : ℕ → Text → List Ip → Outcome Text Response
  pub show_ip : Ip → Text

abbrev io_error : {A : Type 0} → Text → Outcome SkbError A
io_error m = err (skb_error ErrorCode.io m)

abbrev pub is_web : Url → Bool
is_web url = text_eq url.scheme (lit "http") || text_eq url.scheme (lit "https")

public_only : List Ip → Outcome Text (List Ip)
public_only [] = err (lit "host not found")
public_only (ip ∷ ips) = ok (ip ∷ ips)

module _ (net : Network) where
  -- `reject_blocked_ip`
  unfoldable pub reject_blocked_ip : Ip → Outcome SkbError (Unit {0})
  reject_blocked_ip ip =
      reject_if (is_blocked_ip ip) (lit "url resolves to a blocked address: " ++ net.show_ip ip)

  unfoldable pub reject_blocked : List Ip → Outcome SkbError (Unit {0})
  reject_blocked [] = ok tt
  reject_blocked (ip ∷ ips) = do reject_blocked_ip ip; reject_blocked ips

  check_addresses : Text → List Ip → Outcome SkbError (Unit {0})
  check_addresses host [] = io_error (lit "no addresses for '" ++ host ++ lit "'")
  check_addresses host (ip ∷ ips) = reject_blocked (ip ∷ ips)

  -- `validate_url_host`
  unfoldable pub validate_url_host : ℕ → Url → Outcome SkbError (Unit {0})
  unfolding check_addresses reject_blocked reject_blocked_ip
  validate_url_host attempt url = do
    reject_if (not (is_web url))
        (lit "unsupported url scheme '" ++ url.scheme ++ lit "', only http/https are allowed")
    host ← ok_or (skb_error ErrorCode.validation (lit "url has no host")) url.host
    ips ←
        map_err (λ m. skb_error ErrorCode.io (lit "dns resolve '" ++ host ++ lit "': " ++ m))
          (net.lookup attempt host (unwrap_or 80 url.port))
    check_addresses host ips

  -- `SafeResolver::resolve`
  unfoldable pub safe_resolve : ℕ → Text → Outcome Text (List Ip)
  unfolding public_only
  safe_resolve attempt uri = do
    ips ← net.resolve attempt uri
    public_only (filter_by (λ ip. not (is_blocked_ip ip)) ips)

-- After one request: another URL, or the document with its type.
pub data Next : Type 0 where
  follow : Text → Next
  received : Bytes → Option Text → Next

-- `to_ascii_lowercase`
abbrev pub to_ascii_lowercase : Text → Text
to_ascii_lowercase [] = []
to_ascii_lowercase (c ∷ s) = (if leb b'A' c && leb c b'Z' then c + 32 else c) ∷ to_ascii_lowercase s

abbrev first_or_empty : List Text → Text
first_or_empty [] = []
first_or_empty (s ∷ _) = s

-- The media type of a `Content-Type` header, without its parameters.
unfoldable pub media_type : Text → Text
media_type header = to_ascii_lowercase (trim (first_or_empty (split (λ c. c == b';') header)))

abbrev optional_type : Option Text → Option Text
optional_type none = none
optional_type (some header) = some (media_type header)

read_failed : ReadError → SkbError
read_failed body_exceeds_limit =
    skb_error ErrorCode.validation (lit "response exceeds max file size")
read_failed (other m) = skb_error ErrorCode.io (lit "read url: " ++ m)

-- A connection: the URL asked for, and the addresses that it may go to.
abbrev pub Connection : Type 0
Connection = Text × List Ip

-- After one pass: on to the next URL, or out of the loop.
unfoldable pub after_hop :
    (Text → List Connection × Outcome SkbError (Bytes × Option Text))
    → List Connection × Outcome SkbError Next
    → List Connection × Outcome SkbError (Bytes × Option Text)
after_hop onward (opened, ok (follow target)) =
    let (more, result) = onward target in (opened ++ more, result)
after_hop onward (opened, ok (received body mime)) = (opened, ok (body, mime))
after_hop onward (opened, err e) = (opened, err e)
after_hop onward (opened, panic) = (opened, panic)
after_hop onward (opened, out_of_fuel) = (opened, out_of_fuel)

module _ (net : Network) (config : Config) where
  redirected : Url → Response → Outcome SkbError Next
  redirected url resp = do
    location ←
        ok_or
          (skb_error ErrorCode.io (lit "redirect " ++ show resp.status ++ lit " without location"))
          resp.location
    next ←
        map_err (λ m. skb_error ErrorCode.validation (lit "invalid redirect url: " ++ m))
          (net.join url location)
    ok (follow next.text)

  -- The limit of the client is one byte more, as a `u64`.
  unfoldable pub read_body : Response → Outcome SkbError Next
  unfolding media_type read_failed
  read_body resp = do
    body ← map_err read_failed (resp.read ((max_upload_bytes config + 1) % 2 ^ 64))
    reject_if (ltb (max_upload_bytes config) (length body)) (lit "response exceeds max file size")
    ok (received body (optional_type resp.content_type))

  unfoldable pub respond : Url → Response → Outcome SkbError Next
  unfolding redirected read_body
  respond url resp =
      if leb 300 resp.status && ltb resp.status 400
      then redirected url resp
      else if resp.status == 200
      then read_body resp
      else io_error (lit "url returned status " ++ show resp.status)

  connect : ℕ → Text → Url × List Ip → Outcome SkbError Next
  connect attempt current (url, pinned) = do
    resp ←
        map_err (λ m. skb_error ErrorCode.io (lit "fetch url: " ++ m))
          (net.get attempt current pinned)
    respond url resp

module _ (net : Network) (config : Config) (validate : ℕ → Url → Outcome SkbError (Unit {0}))
    (resolver : ℕ → Text → Outcome Text (List Ip)) where
  -- Up to the connection: the deadline, the URL, its check, and the addresses.
  unfoldable pub prepare : ℕ → Text → Outcome SkbError (Url × List Ip)
  prepare attempt current = do
    reject_if (net.remaining attempt == 0) (lit "url fetch exceeded time limit")
    url ←
        map_err (λ m. skb_error ErrorCode.validation (lit "invalid url: " ++ m))
          (net.parse_url current)
    validate attempt url
    pinned ←
        map_err (λ m. skb_error ErrorCode.io (lit "fetch url: " ++ m)) (resolver attempt current)
    ok (url, pinned)

  -- One pass through the loop, with the connection that it opens.
  hop_of : ℕ → Text → Outcome SkbError (Url × List Ip) → List Connection × Outcome SkbError Next
  unfolding connect
  hop_of attempt current (ok p) = ((current, p.1) ∷ [], connect net config attempt current p)
  hop_of attempt current (err e) = ([], err e)
  hop_of attempt current panic = ([], panic)
  hop_of attempt current out_of_fuel = ([], out_of_fuel)

  unfoldable pub hop : ℕ → Text → List Connection × Outcome SkbError Next
  unfolding hop_of prepare
  hop attempt current = hop_of attempt current (prepare attempt current)

  -- The loop, for the attempts that are left.
  unfoldable pub fetch_loop :
      ℕ → ℕ → Text → List Connection × Outcome SkbError (Bytes × Option Text)
  unfolding hop after_hop
  fetch_loop zero attempt current =
      ([], io_error (lit "too many redirects (max " ++ show max_redirects ++ lit ")"))
  fetch_loop (suc left) attempt current =
      after_hop (fetch_loop left (attempt + 1)) (hop attempt current)

-- `fetch_url_with_validator`
unfoldable pub fetch_url_with_validator :
    Network
    → Text
    → Config
    → (ℕ → Url → Outcome SkbError (Unit {0}))
    → Bool
    → List Connection × Outcome SkbError (Bytes × Option Text)
unfolding fetch_loop safe_resolve
fetch_url_with_validator net url_str config validate use_safe_resolver =
    fetch_loop net config validate (if use_safe_resolver then safe_resolve net else net.resolve)
      (max_redirects + 1) 0 url_str

-- `fetch_url`: its result, and the connections that it opened.
unfoldable pub fetch_url :
    Network → Text → Config → List Connection × Outcome SkbError (Bytes × Option Text)
unfolding fetch_url_with_validator validate_url_host
fetch_url net url_str config =
    fetch_url_with_validator net url_str config (validate_url_host net) true
