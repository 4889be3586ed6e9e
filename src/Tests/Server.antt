-- ===== src/Tests/Server.antt =====
-- The response to a missing document (crates/skb-server/src/error.rs).
use surreal_knowledge_base.Base.{◌≡◌, ◌↔◌, ◌<◌, lit}
use surreal_knowledge_base.Error.{ErrorCode, SkbError, skb_error}
use surreal_knowledge_base.Server.Error.{
  into_response, api_error, with_status, IsClientError, response_tells_error,
}

abbrev missing : SkbError
missing = skb_error ErrorCode.document_not_found (lit "missing")

response_tells_error_example :
    (((into_response (api_error missing)).status < 500) ↔ IsClientError missing.code)
    × ((into_response (with_status missing 503)).status ≡ 503)
    × ((into_response (with_status missing 503)).code ≡ (into_response (api_error missing)).code)
    × ((into_response (with_status missing 503)).message
        ≡ (into_response (api_error missing)).message)
response_tells_error_example = response_tells_error missing 503
