-- ===== src/Classify.antt =====
-- internal/clients/timeweb/errors.go: `Classify`, which makes an error of a response of the upstream.
use crossplane_provider_time.Prelude.{
  ℕ, Text, lit, [], ◌∷◌, Option, none, some, Bool, true, false, ◌&&◌, ◌||◌, ◌==◌, ltb, leb,
  if◌then◌else◌, same,
}
pub mod Laws
mod Tests

-- `errorResponseBody` as the JSON library decodes it, with the message in one line.
pub record Envelope : Type 0 where
  pub error_code : Text
  pub message : Text
  pub response_id : Text

-- A response; `envelope` is `none` where the body cannot be read, is empty or is not such JSON.
pub record Response : Type 0 where
  pub status_code : ℕ
  pub envelope : Option Envelope

-- nil, `ErrNotFound`, `*TransientError` and `*APIError`, of whose texts only the code is kept.
pub data Class : Type 0 where
  success not_found : Class
  transient : (status_code : ℕ) → Class
  api_error : (status_code : ℕ) → (code : Text) → Class

unfoldable pub is_transient_status : ℕ → Bool
is_transient_status code =
    code == 408 || code == 409 || code == 425 || code == 429 || (leb 500 code && ltb code 600)

-- The code of `readNotFoundEnvelope` and of `decodeAPIError`.
unfoldable pub code_of : Option Envelope → Text
code_of none = []
code_of (some e) = e.error_code

unfoldable pub classify_404 : Text → Class
classify_404 [] = transient 404
classify_404 (c ∷ code) = not_found

unfoldable pub classify_other : ℕ → Text → Class
classify_other status code =
    if status == 403 && same code (lit "networks_location_mismatch")
    then transient status
    else api_error status code

-- A nil response is `none`.
unfoldable pub classify : Option Response → Class
unfolding is_transient_status code_of classify_404 classify_other
classify none = transient 0
classify (some r) =
    if leb 200 r.status_code && ltb r.status_code 300
    then success
    else if r.status_code == 404
    then classify_404 (code_of r.envelope)
    else if is_transient_status r.status_code
    then transient r.status_code
    else classify_other r.status_code (code_of r.envelope)
