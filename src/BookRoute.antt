-- ===== src/BookRoute.antt =====
-- The handler of the booking form, apps/web/app/public/[tenantSlug]/book/route.ts. The schemas of the
-- answers, the parse of an error's body, encodeURIComponent, today's date and the text of an error of
-- `fetch` are parameters.
pub mod Promise
use booking_zoom_connect.Prelude.{
  ℕ, Bool, ◌&&◌, Option, none, some, List, [], ◌∷◌, ◌++◌, leb, if◌then◌else◌, codes, ⊤,
}
use booking_zoom_connect.WebErrors.{Payload, book, classify_public_api_error, code_text, includes}
use booking_zoom_connect.WebForms.{
  Web, FormData, BookRouteInput, NormalizedFields, parse_book_route_input,
  create_hold_idempotency_key, create_verify_idempotency_key,
}
use booking_zoom_connect.WebApi.{
  Site, Answer, returned, thrown, Fault, no_app_url, no_answer, no_random_uuid, invalid_json,
  refused, Parsed, RequestResult, HoldPayload, create_hold_server, send_verify_email_server,
  parse_with_schema, build_path_with_query,
}

pub record Desk (J : Type 0) : Type 0 where
  pub web : Web
  pub site : Site
  pub parse_json : List ℕ → Option J
  -- `HoldResponseSchema`, of which the code reads the id, and `VerifyEmailResponseSchema`
  pub hold_schema : J → Parsed (List ℕ)
  pub verify_schema : J → Parsed ⊤
  pub parse_payload : List ℕ → Option Payload
  pub encode : List ℕ → List ℕ
  pub fetch_error : List ℕ

-- The two statuses that the page is opened with again: an error's code, or the date of the booking.
pub data Outcome : Type 0 where
  book_error : List ℕ → Outcome
  verification_sent : List ℕ → Outcome

abbrev pub message_of_fault : {J : Type 0} → Desk J → Fault → List ℕ
message_of_fault desk no_app_url =
    codes "APP_URL is required for server-side public booking requests."
message_of_fault desk no_answer = desk.fetch_error
message_of_fault desk no_random_uuid =
    codes "crypto.randomUUID is required to create idempotency keys."
message_of_fault desk (invalid_json name) =
    codes "Failed to parse " ++ (name ++ codes ": invalid JSON payload")
message_of_fault desk (refused name detail) =
    codes "Failed to parse " ++ (name ++ (codes ": " ++ detail))

-- The `catch` of the handler.
abbrev pub caught : {J : Type 0} → Desk J → Fault → Outcome
caught desk fault = book_error (
    if includes (codes "APP_URL") (message_of_fault desk fault)
    then codes "config_error"
    else codes "request_failed")

-- `res.ok`
abbrev pub is_ok : RequestResult → Bool
is_ok res = leb 200 res.status && leb res.status 299

abbrev pub refusal : {J : Type 0} → Desk J → RequestResult → Outcome
refusal desk res =
    book_error (
      codes
        (code_text (classify_public_api_error desk.parse_payload res.status res.text book).code))

abbrev pub verify_parsed : {J : Type 0} → Desk J → BookRouteInput → Answer ⊤ → Outcome
verify_parsed desk input (thrown fault) = caught desk fault
verify_parsed desk input (returned value) = verification_sent input.date

abbrev pub verify_answered : {J : Type 0} → Desk J → BookRouteInput → Answer RequestResult → Outcome
verify_answered desk input (thrown fault) = caught desk fault
verify_answered desk input (returned res) =
    if is_ok res
    then verify_parsed desk input (
        parse_with_schema desk.parse_json res.text desk.verify_schema
          (codes "VerifyEmailResponseSchema"))
    else refusal desk res

unfoldable pub verify_request :
    {J : Type 0} → Desk J → List ℕ → BookRouteInput → ℕ → List ℕ → Answer RequestResult
verify_request desk slug input later id =
    send_verify_email_server desk.site slug id
      (create_verify_idempotency_key desk.web 60 later id input.customer_email)

abbrev pub hold_read :
    {J : Type 0} → Desk J → List ℕ → BookRouteInput → ℕ → Answer (List ℕ) → Outcome
hold_read desk slug input later (thrown fault) = caught desk fault
hold_read desk slug input later (returned []) = book_error (codes "request_failed")
hold_read desk slug input later (returned (c ∷ id)) =
    verify_answered desk input (verify_request desk slug input later (c ∷ id))

unfoldable pub read_hold : {J : Type 0} → Desk J → RequestResult → Answer (List ℕ)
read_hold desk res =
    parse_with_schema desk.parse_json res.text desk.hold_schema (codes "HoldResponseSchema")

abbrev pub hold_answered :
    {J : Type 0} → Desk J → List ℕ → BookRouteInput → ℕ → Answer RequestResult → Outcome
hold_answered desk slug input later (thrown fault) = caught desk fault
hold_answered desk slug input later (returned res) =
    if is_ok res then hold_read desk slug input later (read_hold desk res) else refusal desk res

abbrev pub hold_payload : BookRouteInput → HoldPayload
hold_payload input = record {
  salesperson_id = none;
  start_at = input.start_at_utc;
  end_at = input.end_at_utc;
  booking_mode = input.booking_mode;
  public_notes = some input.public_notes;
  customer = record {
    email = input.customer_email;
    name = some input.customer_name;
    company = none;
  };
}

unfoldable pub hold_request :
    {J : Type 0} → Desk J → List ℕ → BookRouteInput → ℕ → Answer RequestResult
hold_request desk slug input now = create_hold_server desk.site slug (hold_payload input) (
    create_hold_idempotency_key desk.web 60 now input.tenant_slug input.customer_email
      input.start_at_utc input.end_at_utc input.booking_mode)

-- The handler up to its redirect; `now` and `later` are the instants of the two keys.
unfoldable pub book_outcome :
    {J : Type 0} → Desk J → List ℕ → ℕ → ℕ → Option BookRouteInput → Outcome
book_outcome desk slug now later none = book_error (codes "invalid_input")
book_outcome desk slug now later (some input) =
    hold_answered desk slug input later (hold_request desk slug input now)

abbrev pub redirect : {J : Type 0} → Desk J → List ℕ → NormalizedFields → Outcome → List ℕ
redirect desk slug preserved (book_error code) =
    build_path_with_query desk.site (codes "/public/" ++ desk.encode slug) (
      (codes "date", some preserved.date)
      ∷ (codes "name", some preserved.name)
      ∷ (codes "email", some preserved.email)
      ∷ (codes "public_notes", some preserved.public_notes)
      ∷ (codes "booking_mode", some preserved.booking_mode)
      ∷ (codes "status", some (codes "book_error"))
      ∷ (codes "error", some code)
      ∷ [])
redirect desk slug preserved (verification_sent date) =
    build_path_with_query desk.site (codes "/public/" ++ desk.encode slug)
      ((codes "date", some date) ∷ (codes "status", some (codes "verification_sent")) ∷ [])

-- `POST`: the path of the redirect.
unfoldable pub post_booking : {J : Type 0} → Desk J → List ℕ → List ℕ → ℕ → ℕ → FormData → List ℕ
post_booking desk slug today now later form =
    let (input, preserved) = parse_book_route_input desk.web slug today form in
    redirect desk slug preserved (book_outcome desk slug now later input)
