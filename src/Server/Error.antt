-- ===== src/Server/Error.antt =====
-- `ApiError` of crates/skb-server/src/error.rs: the HTTP status of an error, and its body.
use surreal_knowledge_base.Base.{ℕ, ◌≡◌, ◌↔◌, ◌⊎◌, ◌<◌, inl, inr, refl, Text, arith}
use surreal_knowledge_base.Error.{ErrorCode, SkbError, code_str}

-- A status code, as its number.
abbrev pub StatusCode : Type 0
StatusCode = ℕ

pub record ApiError : Type 0 where
  pub error : SkbError
  pub status : StatusCode

-- `status_for`
unfoldable pub status_for : ErrorCode → StatusCode
status_for ErrorCode.validation = 400
status_for ErrorCode.document_not_found = 404
status_for ErrorCode.unsupported_format = 415
status_for ErrorCode.db = 500
status_for ErrorCode.io = 500
status_for ErrorCode.config = 500
status_for ErrorCode.embedding = 500
status_for ErrorCode.tokenize = 500
status_for ErrorCode.model_mismatch = 500

-- `ApiError::new`, and the conversion from an `SkbError`.
unfoldable pub api_error : SkbError → ApiError
api_error e = record { error = e; status = status_for e.code }

-- `ApiError::with_status`
unfoldable pub with_status : SkbError → StatusCode → ApiError
with_status e status = record { error = e; status = status }

-- The body of a response: its JSON object, member by member.
pub record Response : Type 0 where
  pub status : StatusCode
  pub code : Text
  pub message : Text

-- `into_response`
unfoldable pub into_response : ApiError → Response
into_response e = record {
  status = e.status;
  code = code_str e.error.code;
  message = e.error.message;
}

-- The errors that a client caused.
abbrev pub IsClientError : ErrorCode → Type 0
IsClientError c =
    (c ≡ ErrorCode.validation)
    ⊎ ((c ≡ ErrorCode.document_not_found) ⊎ (c ≡ ErrorCode.unsupported_format))

code_of_status : (c : ErrorCode) → (status_for c < 500) ↔ IsClientError c
unfolding status_for
code_of_status ErrorCode.validation = (λ h. inl refl, λ h. omega arith)
code_of_status ErrorCode.document_not_found = (λ h. inr (inl refl), λ h. omega arith)
code_of_status ErrorCode.unsupported_format = (λ h. inr (inr refl), λ h. omega arith)
code_of_status ErrorCode.db = (λ h. ground arith, λ h. ground arith)
code_of_status ErrorCode.io = (λ h. ground arith, λ h. ground arith)
code_of_status ErrorCode.config = (λ h. ground arith, λ h. ground arith)
code_of_status ErrorCode.embedding = (λ h. ground arith, λ h. ground arith)
code_of_status ErrorCode.tokenize = (λ h. ground arith, λ h. ground arith)
code_of_status ErrorCode.model_mismatch = (λ h. ground arith, λ h. ground arith)

-- The response to an error has a status below 500 exactly if the error is a failed validation, a
-- missing document or an unsupported format; another status that a handler chooses changes the
-- status alone, and not the code or the message of the body.
pub response_tells_error :
    (e : SkbError) (status : StatusCode)
    → (((into_response (api_error e)).status < 500) ↔ IsClientError e.code)
      × ((into_response (with_status e status)).status ≡ status)
      × ((into_response (with_status e status)).code ≡ (into_response (api_error e)).code)
      × ((into_response (with_status e status)).message ≡ (into_response (api_error e)).message)
unfolding into_response api_error with_status
response_tells_error e status = (code_of_status e.code, refl, refl, refl)
