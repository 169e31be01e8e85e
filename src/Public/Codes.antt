-- ===== src/Public/Codes.antt =====
-- The error codes of the confirmation: `classifyConfirmErrorCode` and the handler `confirm` of
-- apps/api/src/public.controller.ts. An exception of the services has one text as its message.
use booking_zoom_connect.Prelude.{
  ℕ, String, ◌||◌, Option, none, some, List, ◌==◌, if◌then◌else◌, codes,
}
use booking_zoom_connect.Service.{
  Result, ok, err, HttpError, bad_request, unauthorized, forbidden, not_found, conflict,
  plain_error, unique_violation, World, Env,
}
use booking_zoom_connect.WebErrors.{lower, includes}
use booking_zoom_connect.Public.Links.{Site}
use booking_zoom_connect.Public.Endpoints.{PublicConfirm, confirm_booking_public}

pub data ConfirmCode : Type 0 where
  hold_expired invalid_token internal_error : ConfirmCode

unfoldable pub classify_confirm_error_code : ℕ → List ℕ → ConfirmCode
classify_confirm_error_code status message =
    let normalized = lower message in
    if includes (codes "hold expired") normalized
    then hold_expired
    else if status == 401
        || status == 403
        || includes (codes "token") normalized
        || includes (codes "invalid token") normalized
        || includes (codes "token required") normalized
    then invalid_token
    else internal_error

-- The status and the text of an exception; another error has none.
abbrev pub http_parts : HttpError → Option (ℕ × String)
http_parts (bad_request m) = some (400, m)
http_parts (unauthorized m) = some (401, m)
http_parts (forbidden m) = some (403, m)
http_parts (not_found m) = some (404, m)
http_parts (conflict m) = some (409, m)
http_parts (plain_error m) = none
http_parts unique_violation = none

-- What the endpoint answers: the service's answer, or a status with a message and a code.
pub data ConfirmAnswer : Type 0 where
  confirmed_answer : PublicConfirm → ConfirmAnswer
  failed_answer : ℕ → String → Option ConfirmCode → ConfirmAnswer

abbrev pub failed_parts : Option (ℕ × String) → ConfirmAnswer
failed_parts none = failed_answer 500 "Internal server error" (some internal_error)
failed_parts (some (status, message)) =
    failed_answer status message (some (classify_confirm_error_code status (codes message)))

abbrev pub confirm_answer : Result PublicConfirm → ConfirmAnswer
confirm_answer (ok r) = confirmed_answer r
confirm_answer (err e) = failed_parts (http_parts e)

-- `confirm`; a `booking_id` in the body is refused before the `try`.
unfoldable pub confirm_endpoint :
    Env → Site → ℕ → ℕ → String → Option ℕ → String → String → World → ConfirmAnswer × World
confirm_endpoint env site now now_in_tx slug (some id) token key w =
    (failed_answer 400 "token required (booking_id confirm is not supported)" none, w)
confirm_endpoint env site now now_in_tx slug none token key w =
    let (r, w') = confirm_booking_public env site now now_in_tx slug token key w in
    (confirm_answer r, w')
