-- ===== src/Tests/Fetch.antt =====
-- Fetching, addresses, HTML and paths on small inputs (crates/skb-core/src/ingest.rs).
use surreal_knowledge_base.Base.{
  ℕ, zero, suc, ◌≡◌, refl, Text, text_eq, lit, is_whitespace, trim, split, true, none, some, List,
  [], ◌∷◌, arith, map,
}
use surreal_knowledge_base.Error.{SkbError, Outcome, ok}
use surreal_knowledge_base.Config.{Config, default_config}
use surreal_knowledge_base.Ingest.Address.{
  Ip, v4, v6, is_blocked_ip, is_blocked_v4, is_blocked_native,
}
use surreal_knowledge_base.Ingest.Address.Ranges.{is_refused, is_blocked_ip-is_refused}
use surreal_knowledge_base.Ingest.Text.{strip_tags, collapse, html_to_text}
use surreal_knowledge_base.Ingest.Size.{max_upload_bytes}
use surreal_knowledge_base.Ingest.Embed.{embed_batch, embed_chunks}
use surreal_knowledge_base.Ingest.Fetch.{
  Network, Url, Response, fetch_url, fetch_url_with_validator, fetch_loop, hop, after_hop, prepare,
  respond, read_body, media_type, safe_resolve, validate_url_host, reject_blocked,
  reject_blocked_ip,
}
use surreal_knowledge_base.Ingest.Fetch.Guard.{IsFetch, fetch_url-IsFetch}

abbrev mapped_loopback : Ip
mapped_loopback =
    v6 (record { s0 = 0; s1 = 0; s2 = 0; s3 = 0; s4 = 0; s5 = 0xffff; s6 = 0x7f00; s7 = 1 })

mapped_loopback_test : is_blocked_ip mapped_loopback ≡ true
unfolding is_blocked_ip is_blocked_native is_blocked_v4
mapped_loopback_test = refl

is_blocked_ip-is_refused_example : is_blocked_ip mapped_loopback ≡ is_refused mapped_loopback
is_blocked_ip-is_refused_example =
    is_blocked_ip-is_refused mapped_loopback (omega arith, omega arith)

html_test : html_to_text (lit "<p>a\n\n b</p>") ≡ lit "a b"
unfolding html_to_text strip_tags collapse is_whitespace lit
html_test = refl

abbrev embed_lengths : List Text → Outcome SkbError (List ℕ)
embed_lengths texts = ok (map (λ t. 7) texts)

embed_batch_test :
    embed_batch embed_lengths (lit "a" ∷ lit "b" ∷ lit "c" ∷ []) 2 ≡ ok (7 ∷ 7 ∷ 7 ∷ [])
unfolding embed_batch embed_chunks
embed_batch_test = refl

abbrev public_ip : Ip
public_ip = v4 (record { a = 93; b = 184; c = 215; d = 14 })

abbrev local_ip : Ip
local_ip = v4 (record { a = 127; b = 0; c = 0; d = 1 })

abbrev page_url : Text → Url
page_url t = record {
  scheme = lit "https";
  host = some (lit "example.org");
  port = some 443;
  text = t;
}

-- The first answer redirects, the second has a body; the resolver also tells a local address.
abbrev redirect_once : ℕ → Response
redirect_once zero = record {
  status = 301;
  location = some (lit "/new");
  content_type = none;
  read = λ n. ok [];
}
redirect_once (suc _) = record {
  status = 200;
  location = none;
  content_type = some (lit "Text/HTML; charset=utf-8");
  read = λ n. ok (104 ∷ 105 ∷ []);
}

abbrev pub network : Network
network = record {
  remaining = λ n. 1000;
  parse_url = λ t. ok (page_url t);
  join = λ u t. ok (page_url (lit "https://example.org/new"));
  lookup = λ n host port. ok (public_ip ∷ []);
  resolve = λ n t. ok (local_ip ∷ public_ip ∷ []);
  get = λ n t ips. ok (redirect_once n);
  show_ip = λ ip. lit "ip";
}

abbrev pub config : Config
config = default_config (lit "/home")

fetch_test : fetch_url network (lit "https://example.org/") config ≡ (
  (lit "https://example.org/", public_ip ∷ [])
      ∷ (lit "https://example.org/new", public_ip ∷ [])
      ∷ [],
  ok (104 ∷ 105 ∷ [], some (lit "text/html")),
)
unfolding fetch_url fetch_url_with_validator fetch_loop hop after_hop prepare respond read_body
    media_type safe_resolve validate_url_host reject_blocked reject_blocked_ip is_blocked_ip
    is_blocked_v4 max_upload_bytes lit text_eq split is_whitespace default_config trim
fetch_test = refl

fetch_url-IsFetch_example :
    IsFetch network config 6 (fetch_url network (lit "https://example.org/") config)
fetch_url-IsFetch_example = fetch_url-IsFetch network (lit "https://example.org/") config
