-- ===== src/Ingest/Fetch/Guard.antt =====
-- What a fetch (crates/skb-core/src/ingest.rs) connects to, and what it returns.
use surreal_knowledge_base.Base.{
  Option, ◌&&◌, ℕ, zero, suc, ◌+◌, ◌≤◌, ◌≡◌, refl, ap, subst, Text, Bool-cases, inl, inr, true,
  false, not, List, [], ◌∷◌, length, length-append, filter_by, All, All-append, arith, ltb-false,
  ltb, leb, ◌==◌,
}
use surreal_knowledge_base.Error.{
  SkbError, Outcome, ok, err, panic, out_of_fuel, map_err, map_err-eq-ok, >>=-eq-ok, ok-injective,
  ok_or,
}
use surreal_knowledge_base.Config.{Config, reject_if}
use surreal_knowledge_base.Ingest.Address.{Ip, is_blocked_ip}
use surreal_knowledge_base.Ingest.Size.{max_upload_bytes}
use surreal_knowledge_base.Ingest.Fetch.{
  Network, Url, Response, Connection, Bytes, Next, follow, received, max_redirects, prepare, hop,
  hop_of, after_hop, connect, respond, redirected, read_body, read_failed, fetch_loop, fetch_url,
  fetch_url_with_validator, safe_resolve, public_only, validate_url_host, is_web,
}

abbrev IsPublic : List Ip → Type 0
IsPublic = All (λ ip. is_blocked_ip ip ≡ false)

-- A connection that was checked: the URL is one, its host passed the check at the attempt, and no
-- address that it may go to is blocked.
pub record IsGuarded (net : Network) (c : Connection) : Type 0 where
  pub url : Url
  pub parsed : net.parse_url c.0 ≡ ok url
  pub attempt : ℕ
  pub checked : validate_url_host net attempt url ≡ ok tt
  pub web : is_web url ≡ true
  pub public : IsPublic c.1

-- A value, if there is one, has the property.
abbrev pub OnOk {ℓ} : {E : Type 0} {A : Type ℓ} → (A → Type 0) → Outcome E A → Type 0
OnOk P (ok a) = P a
OnOk P (err _) = Unit
OnOk P panic = Unit
OnOk P out_of_fuel = Unit

public_only-IsPublic :
    (ips pinned : List Ip) → IsPublic ips → public_only ips ≡ ok pinned → IsPublic pinned
unfolding public_only
public_only-IsPublic [] pinned h e = cc
public_only-IsPublic (ip ∷ ips) pinned h e = subst IsPublic (ok-injective e) h

filter-IsPublic : (ips : List Ip) → IsPublic (filter_by (λ ip. not (is_blocked_ip ip)) ips)
filter-IsPublic [] = tt
filter-IsPublic (ip ∷ ips) = elim (Bool-cases (is_blocked_ip ip)) [
  | inl e ↦ rw e (filter-IsPublic ips)
  | inr e ↦ rw e (e, filter-IsPublic ips)
]

safe_resolve-IsPublic :
    (net : Network) (attempt : ℕ) (uri : Text) (pinned : List Ip)
    → safe_resolve net attempt uri ≡ ok pinned
    → IsPublic pinned
unfolding safe_resolve
safe_resolve-IsPublic net attempt uri pinned h =
    let (ips, _, h) = >>=-eq-ok (net.resolve attempt uri) _ h in
    public_only-IsPublic (filter_by (λ ip. not (is_blocked_ip ip)) ips) pinned (filter-IsPublic ips)
      h

validate_url_host-is_web :
    (net : Network) (attempt : ℕ) (url : Url)
    → validate_url_host net attempt url ≡ ok tt
    → is_web url ≡ true
unfolding validate_url_host
validate_url_host-is_web net attempt url h = elim (Bool-cases (is_web url)) [
  | inl e ↦ e
  | inr e ↦ ground arith
]

module _ (net : Network) (config : Config) where
  abbrev attempt_at : ℕ → Text → Outcome SkbError (Url × List Ip)
  attempt_at = prepare net config (validate_url_host net) (safe_resolve net)

  prepare-IsGuarded :
      (attempt : ℕ) (current : Text) (url : Url) (pinned : List Ip)
      → attempt_at attempt current ≡ ok (url, pinned)
      → IsGuarded net (current, pinned)
  unfolding prepare
  prepare-IsGuarded attempt current url pinned h =
      let (_, _, h) = >>=-eq-ok (reject_if (net.remaining attempt == 0) _) _ h in
      let (url', parsed, h) = >>=-eq-ok (map_err _ (net.parse_url current)) _ h in
      let (_, checked, h) = >>=-eq-ok (validate_url_host net attempt url') _ h in
      let (pinned', resolved, h) = >>=-eq-ok (map_err _ (safe_resolve net attempt current)) _ h in
      let same : pinned' ≡ pinned = ap (λ p. p.1) (ok-injective h) in
      record {
        url = url';
        parsed = map_err-eq-ok _ (net.parse_url current) url' parsed;
        attempt = attempt;
        checked = checked;
        web = validate_url_host-is_web net attempt url' checked;
        public = subst IsPublic same (
            safe_resolve-IsPublic net attempt current pinned'
              (map_err-eq-ok _ (safe_resolve net attempt current) pinned' resolved));
      }

  -- A body within the size limit.
  abbrev IsWithin : Next → Type 0
  IsWithin (follow _) = Unit
  IsWithin (received body _) = length body ≤ max_upload_bytes config

  read_body-IsWithin :
      (resp : Response) (next : Next) → read_body net config resp ≡ ok next → IsWithin next
  unfolding read_body
  read_body-IsWithin resp next h =
      let (body, _, h) = >>=-eq-ok (map_err read_failed (resp.read _)) _ h in
      let (_, fits, h) =
        >>=-eq-ok (reject_if (ltb (max_upload_bytes config) (length body)) _) _ h in
      subst IsWithin (ok-injective h)
        (ground (arith, ltb-false (max_upload_bytes config) (length body)))

  respond-IsWithin :
      (url : Url) (resp : Response) (next : Next)
      → respond net config url resp ≡ ok next
      → IsWithin next
  unfolding respond
  respond-IsWithin url resp next h =
      elim (Bool-cases (leb 300 resp.status && ltb resp.status 400)) [
        | inl e ↦
            let (location, _, h) =
              >>=-eq-ok (ok_or _ resp.location) _ (unfold redirected in rw e at h) in
            let (target, _, h) = >>=-eq-ok (map_err _ (net.join url location)) _ h in
            subst IsWithin (ok-injective h) tt
        | inr e ↦ elim (Bool-cases (resp.status == 200)) [
          | inl f ↦ read_body-IsWithin resp next (rw (e, f) at h)
          | inr f ↦ ground arith
        ]
      ]

  connect_ok-IsWithin :
      (attempt : ℕ) (current : Text) (p : Url × List Ip) (m : Outcome SkbError Next)
      → connect net config attempt current p ≡ m
      → OnOk IsWithin m
  unfolding connect
  connect_ok-IsWithin attempt current (url, pinned) (ok next) e =
      let (resp, _, h) = >>=-eq-ok (map_err _ (net.get attempt current pinned)) _ e in
      respond-IsWithin url resp next h
  connect_ok-IsWithin attempt current p (err e) _ = tt
  connect_ok-IsWithin attempt current p panic _ = tt
  connect_ok-IsWithin attempt current p out_of_fuel _ = tt

  -- What one pass gives: guarded connections, at most one, and a body within the limit.
  record IsGuardedHop (h : List Connection × Outcome SkbError Next) : Type 0 where
    guarded : All (IsGuarded net) h.0
    single : length h.0 ≤ 1
    within : OnOk IsWithin h.1

  abbrev prepared_hop :
      ℕ → Text → Outcome SkbError (Url × List Ip) → List Connection × Outcome SkbError Next
  prepared_hop = hop_of net config (validate_url_host net) (safe_resolve net)

  hop_of-IsGuardedHop :
      (attempt : ℕ) (current : Text) (m : Outcome SkbError (Url × List Ip))
      → attempt_at attempt current ≡ m
      → IsGuardedHop (prepared_hop attempt current m)
  unfolding hop_of
  hop_of-IsGuardedHop attempt current (ok (url, pinned)) e = record {
    guarded = (prepare-IsGuarded attempt current url pinned e, tt);
    single = omega arith;
    within = connect_ok-IsWithin attempt current (url, pinned) _ refl;
  }
  hop_of-IsGuardedHop attempt current (err e) _ = record {
    guarded = tt;
    single = omega arith;
    within = tt;
  }
  hop_of-IsGuardedHop attempt current panic _ = record {
    guarded = tt;
    single = omega arith;
    within = tt;
  }
  hop_of-IsGuardedHop attempt current out_of_fuel _ = record {
    guarded = tt;
    single = omega arith;
    within = tt;
  }

  -- What a fetch may do within a number of requests.
  pub record IsFetch (requests : ℕ) (f : List Connection × Outcome SkbError (Bytes × Option Text))
      : Type 0 where
    pub guarded : All (IsGuarded net) f.0
    pub few : length f.0 ≤ requests
    pub within : OnOk (λ r. length r.0 ≤ max_upload_bytes config) f.1

  after_hop-IsFetch :
      (requests : ℕ) (onward : Text → List Connection × Outcome SkbError (Bytes × Option Text))
      (h : List Connection × Outcome SkbError Next)
      → ((target : Text) → IsFetch requests (onward target))
      → IsGuardedHop h
      → IsFetch (suc requests) (after_hop onward h)
  unfolding after_hop
  after_hop-IsFetch requests onward (opened, ok (follow target)) rest p =
      let r = rest target in
      record {
        guarded = All-append (IsGuarded net) opened (onward target).0 p.guarded r.guarded;
        few = omega (arith, p.single, r.few, length-append opened (onward target).0);
        within = r.within;
      }
  after_hop-IsFetch requests onward (opened, ok (received body mime)) rest p = record {
    guarded = p.guarded;
    few = omega (arith, p.single);
    within = p.within;
  }
  after_hop-IsFetch requests onward (opened, err e) rest p = record {
    guarded = p.guarded;
    few = omega (arith, p.single);
    within = tt;
  }
  after_hop-IsFetch requests onward (opened, panic) rest p = record {
    guarded = p.guarded;
    few = omega (arith, p.single);
    within = tt;
  }
  after_hop-IsFetch requests onward (opened, out_of_fuel) rest p = record {
    guarded = p.guarded;
    few = omega (arith, p.single);
    within = tt;
  }

  loop-IsFetch :
      (left attempt : ℕ) (current : Text)
      → IsFetch left
          (fetch_loop net config (validate_url_host net) (safe_resolve net) left attempt current)
  unfolding fetch_loop hop
  loop-IsFetch zero attempt current = record { guarded = tt; few = omega arith; within = tt }
  loop-IsFetch (suc left) attempt current =
      after_hop-IsFetch left _ _ (λ target. loop-IsFetch left (attempt + 1) target)
        (hop_of-IsGuardedHop attempt current (attempt_at attempt current) refl)

-- Whatever the network answers, a fetch makes at most six requests; each goes to an http or https URL
-- whose host passed the check, over a connection to addresses of which none is blocked; and a body
-- that is returned is within the size limit.
pub fetch_url-IsFetch :
    (net : Network) (url_str : Text) (config : Config)
    → IsFetch net config 6 (fetch_url net url_str config)
unfolding fetch_url fetch_url_with_validator
fetch_url-IsFetch net url_str config = loop-IsFetch net config (max_redirects + 1) 0 url_str
