-- ===== src/WebApi.antt =====
-- The requests of the public pages to the API, apps/web/app/public/[tenantSlug]/publicBookingApi.ts, and
-- the queries of helpers.ts. Texts are lists of UTF-16 code units. `fetch`, the environment variable,
-- URLSearchParams, JSON.parse, crypto and the schemas of types.ts are parameters; a body is what is given
-- to JSON.stringify.
use booking_zoom_connect.Prelude.{
  ℕ, Option, none, some, List, [], ◌∷◌, ◌++◌, ◌==◌, if◌then◌else◌, codes,
}
use booking_zoom_connect.Graph.Client.{Reply, lost, answered}
use booking_zoom_connect.WebForms.{Slot, trim}

pub record Customer : Type 0 where
  pub email : List ℕ
  pub name : Option (List ℕ)
  pub company : Option (List ℕ)

pub record HoldPayload : Type 0 where
  pub salesperson_id : Option (List ℕ)
  pub start_at : List ℕ
  pub end_at : List ℕ
  pub booking_mode : List ℕ
  pub public_notes : Option (List ℕ)
  pub customer : Customer

pub data Body : Type 0 where
  hold : HoldPayload → Body
  booking_id : List ℕ → Body
  token : List ℕ → Body
  -- token, new_start_at, new_end_at
  new_slot : List ℕ → List ℕ → List ℕ → Body

-- The `init` of `fetch`: a GET that is not cached, or a POST with its idempotency key.
pub data Init : Type 0 where
  no_store : Init
  post : List ℕ → Body → Init

pub record RequestResult : Type 0 where
  pub status : ℕ
  pub text : List ℕ

pub data Fault : Type 0 where
  no_app_url : Fault
  no_answer : Fault
  no_random_uuid : Fault
  -- `PublicApiParseError`, of a schema's name
  invalid_json : List ℕ → Fault
  refused : List ℕ → List ℕ → Fault

pub data Answer (A : Type 0) : Type 0 where
  returned : A → Answer A
  thrown : Fault → Answer A

pub record Site : Type 0 where
  -- `process.env.APP_URL`
  pub app_url : Option (List ℕ)
  -- `URLSearchParams.toString` of keys and values
  pub search_params : List (List ℕ × List ℕ) → List ℕ
  pub fetch : List ℕ → Init → Reply (List ℕ)
  -- `crypto.randomUUID`, where it exists
  pub random_uuid : Option (List ℕ)

abbrev pub drop_slash : List ℕ → List ℕ
drop_slash [] = []
drop_slash (c ∷ []) = if c == b'/' then [] else c ∷ []
drop_slash (c ∷ d ∷ s) = c ∷ drop_slash (d ∷ s)

abbrev pub url_of : List ℕ → Answer (List ℕ)
url_of [] = thrown no_app_url
url_of (c ∷ s) = returned (drop_slash (c ∷ s))

unfoldable pub app_url_or_throw : Option (List ℕ) → Answer (List ℕ)
app_url_or_throw none = thrown no_app_url
app_url_or_throw (some s) = url_of (trim s)

-- The entries that `query.set` is called for: neither missing nor empty. The keys differ.
unfoldable pub set_params : List (List ℕ × Option (List ℕ)) → List (List ℕ × List ℕ)
set_params [] = []
set_params ((key, none) ∷ params) = set_params params
set_params ((key, some []) ∷ params) = set_params params
set_params ((key, some (c ∷ s)) ∷ params) = (key, c ∷ s) ∷ set_params params

abbrev pub after_mark : List ℕ → List ℕ
after_mark [] = []
after_mark (c ∷ s) = b'?' ∷ c ∷ s

unfoldable pub build_query : Site → List (List ℕ × Option (List ℕ)) → List ℕ
build_query site params = after_mark (site.search_params (set_params params))

-- `buildPathWithQuery` of helpers.ts
unfoldable pub build_path_with_query : Site → List ℕ → List (List ℕ × Option (List ℕ)) → List ℕ
build_path_with_query site pathname query =
    pathname ++ after_mark (site.search_params (set_params query))

-- `createIdempotencyKey` of helpers.ts
unfoldable pub create_idempotency_key : Option (List ℕ) → List ℕ → Answer (List ℕ)
create_idempotency_key none prefix = thrown no_random_uuid
create_idempotency_key (some uuid) prefix = returned (prefix ++ (b':' ∷ uuid))

-- `readSearchParam` of helpers.ts: a missing parameter has no values.
abbrev pub read_search_param : List (List ℕ) → List ℕ
read_search_param [] = []
read_search_param (value ∷ values) = value

-- `readText`
abbrev pub result_of : Reply (List ℕ) → Answer RequestResult
result_of lost = thrown no_answer
result_of (answered status none) = thrown no_answer
result_of (answered status (some text)) = returned (record { status = status; text = text })

abbrev pub request_at : Site → Answer (List ℕ) → List ℕ → Init → Answer RequestResult
request_at site (thrown fault) pathname init = thrown fault
request_at site (returned url) pathname init = result_of (site.fetch (url ++ pathname) init)

unfoldable pub server_request : Site → List ℕ → Init → Answer RequestResult
server_request site pathname init = request_at site (app_url_or_throw site.app_url) pathname init

abbrev pub public_path : List ℕ → List ℕ → List ℕ
public_path tenant_slug rest = codes "/api/public/" ++ (tenant_slug ++ rest)

abbrev pub availability_path : Site → List ℕ → List ℕ → Option (List ℕ) → List ℕ
availability_path site tenant_slug date salesperson = public_path tenant_slug (
    codes "/availability"
    ++ build_query site ((codes "date", some date) ∷ (codes "salesperson", salesperson) ∷ []))

unfoldable pub fetch_availability_server :
    Site → List ℕ → List ℕ → Option (List ℕ) → Answer RequestResult
fetch_availability_server site tenant_slug date salesperson =
    server_request site (availability_path site tenant_slug date salesperson) no_store

-- In the browser, at the page's own origin; an abort is a request that is lost.
unfoldable pub fetch_availability_client :
    Site → List ℕ → List ℕ → Option (List ℕ) → Answer RequestResult
fetch_availability_client site tenant_slug date salesperson =
    result_of (site.fetch (availability_path site tenant_slug date salesperson) no_store)

unfoldable pub fetch_salespersons_server : Site → List ℕ → Answer RequestResult
fetch_salespersons_server site tenant_slug =
    server_request site (public_path tenant_slug (codes "/salespersons")) no_store

unfoldable pub create_hold_server : Site → List ℕ → HoldPayload → List ℕ → Answer RequestResult
create_hold_server site tenant_slug payload key =
    server_request site (public_path tenant_slug (codes "/holds")) (post key (hold payload))

unfoldable pub send_verify_email_server : Site → List ℕ → List ℕ → List ℕ → Answer RequestResult
send_verify_email_server site tenant_slug id key =
    server_request site (public_path tenant_slug (codes "/verify-email")) (post key (booking_id id))

unfoldable pub confirm_booking_server : Site → List ℕ → List ℕ → List ℕ → Answer RequestResult
confirm_booking_server site tenant_slug given key =
    server_request site (public_path tenant_slug (codes "/confirm")) (post key (token given))

abbrev pub booking_path : List ℕ → List ℕ → List ℕ → List ℕ
booking_path tenant_slug id action = public_path tenant_slug (codes "/bookings/" ++ (id ++ action))

unfoldable pub cancel_booking_server :
    Site → List ℕ → List ℕ → List ℕ → List ℕ → Answer RequestResult
cancel_booking_server site tenant_slug id given key =
    server_request site (booking_path tenant_slug id (codes "/cancel")) (post key (token given))

unfoldable pub reschedule_booking_server :
    Site → List ℕ → List ℕ → List ℕ → Slot → List ℕ → Answer RequestResult
reschedule_booking_server site tenant_slug id given slot key =
    server_request site (booking_path tenant_slug id (codes "/reschedule"))
      (post key (new_slot given slot.start_at_utc slot.end_at_utc))

-- What `safeParse` gives: the value, or the text of its error.
pub data Parsed (A : Type 0) : Type 0 where
  success : A → Parsed A
  failure : List ℕ → Parsed A

abbrev pub checked : {A : Type 0} → List ℕ → Parsed A → Answer A
checked name (success value) = returned value
checked name (failure detail) = thrown (refused name detail)

abbrev pub checked_json : {J A : Type 0} → (J → Parsed A) → List ℕ → Option J → Answer A
checked_json schema name none = thrown (invalid_json name)
checked_json schema name (some json) = checked name (schema json)

-- `parseWithSchema`, with the parse of JSON; the functions from parsePublicApiErrorPayload to
-- parseSalespersons give it their schema and its name.
unfoldable pub parse_with_schema :
    {J A : Type 0} → (List ℕ → Option J) → List ℕ → (J → Parsed A) → List ℕ → Answer A
parse_with_schema parse_json text schema name = checked_json schema name (parse_json text)
