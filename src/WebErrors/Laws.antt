-- ===== src/WebErrors/Laws.antt =====
-- About the messages of apps/web/app/public/[tenantSlug]/errors.ts.
use booking_zoom_connect.Prelude.{◌⊎◌, ℕ, ◌≡◌, refl, ap, true, some, List, Option, codes, arith}
use booking_zoom_connect.Notes.{trim_start, trim_end}
use booking_zoom_connect.WebErrors.{
  PublicErrorCode, PublicErrorContext, Payload, code_text, find_code, supported, invalid_input,
  invalid_token, expired, slot_unavailable, already_processed, config_error, request_failed,
  not_found, unknown, includes, lower, from_message, message_from_error_code,
  classify_public_api_error, message_of,
}

code_found :
    (c : PublicErrorCode) → find_code (trim_end (trim_start (codes (code_text c)))) supported ≡ c
unfolding trim_start trim_end
code_found invalid_input = refl
code_found invalid_token = refl
code_found expired = refl
code_found slot_unavailable = refl
code_found already_processed = refl
code_found config_error = refl
code_found request_failed = refl
code_found not_found = refl
code_found unknown = refl

-- The message of a classified error is the message that its code alone leads to, so a page that
-- is handed only the code shows the same text, whatever the response and its parse.
pub same_message :
    (parse : List ℕ → Option Payload) (status : ℕ) (raw : List ℕ) (context : PublicErrorContext)
    → message_from_error_code
        (codes (code_text (classify_public_api_error parse status raw context).code))
        context
      ≡ (classify_public_api_error parse status raw context).message
unfolding message_from_error_code classify_public_api_error
same_message parse status raw context =
    ap (λ c. message_of c context)
      (code_found (classify_public_api_error parse status raw context).code)

-- A message that has the word "token" in it leads to no code but `invalid_input` and
-- `invalid_token`, whatever else it says, as that the token has expired or was used before.
pub token_message :
    (m : List ℕ)
    → includes (codes "token") (lower m) ≡ true
    → (from_message m ≡ some invalid_input) ⊎ (from_message m ≡ some invalid_token)
unfolding from_message
token_message m h = ground arith
