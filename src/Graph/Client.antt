-- ===== src/Graph/Client.antt =====
-- `GraphClient` (apps/api/src/clients/graph.client.ts): its two caches, `getAccessToken`, `graphFetch`
-- and `resolveScheduleEmail`. What Microsoft answers to a request is a parameter, and so is the text
-- of an error where the code quotes the answer.
pub mod Tokens
use booking_zoom_connect.Prelude.{
  ℕ, String, Bool, true, false, ◌&&◌, ◌||◌, not, Option, none, some, List, [], ◌∷◌, ◌+◌, ◌*◌, ltb,
  leb, ◌==◌, str_eq, if◌then◌else◌, ⊤,
}
use booking_zoom_connect.Service.{Result, ok, err, HttpError, plain_error, is_empty}

-- What becomes of a request: `fetch` throws, or there is a response with a status and, if it can be
-- read, a body.
pub data Reply (A : Type 0) : Type 0 where
  lost : Reply A
  answered : ℕ → Option A → Reply A

pub record TokenJson : Type 0 where
  pub access_token : String
  pub expires_in : Option ℕ

pub record UserJson : Type 0 where
  pub mail : Option String
  pub user_principal_name : Option String

pub record TokenEntry : Type 0 where
  pub access_token : String
  pub expires_at_ms : ℕ

pub record EmailEntry : Type 0 where
  pub email : String
  pub expires_at_ms : ℕ

-- The requests, with the token that each carries.
pub data Request : Type 0 where
  token_request : String → Request
  authorized : String → String → Request

-- The caches, and the requests sent so far, the latest first.
pub record Client : Type 0 where
  pub token_cache : List (String × TokenEntry)
  pub schedule_email_cache : List ((String × String) × EmailEntry)
  pub sent : List Request

-- What the requests are about, and the fields of the answers that the code reads.
pub record ScheduleInput : Type 0 where
  pub user : String
  pub schedule : String
  pub start : ℕ
  pub end : ℕ

pub record MomentJson : Type 0 where
  pub date_time : Option String
  pub time_zone : Option String

pub record ScheduleItem : Type 0 where
  pub status : Option String
  pub start : MomentJson
  pub end : MomentJson

pub record EventInput : Type 0 where
  pub organizer_user_id : String
  pub subject : String
  pub start_utc : ℕ
  pub end_utc : ℕ
  pub attendee_email : String
  pub body : String
  pub transaction_id : Option String

pub record EventJson : Type 0 where
  pub id : Option String
  pub i_cal_uid : Option String
  pub etag : Option String

pub record PatchBody : Type 0 where
  pub json_etag : Option String
  pub header_etag : Option String

pub record DetailsJson : Type 0 where
  pub id : Option String
  pub start : MomentJson
  pub end : MomentJson
  pub etag : Option String

pub record MailInput : Type 0 where
  pub to : String
  pub subject : String
  pub body : String

pub record SubscriptionInput : Type 0 where
  pub resource : String
  pub expiration_utc : String
  pub client_state : Option String

pub record SubscriptionJson : Type 0 where
  pub id : Option String
  pub expiration_date_time : Option String

-- Configuration, Microsoft's side at each instant, and the text functions of JavaScript and luxon.
pub record Remote : Type 0 where
  pub graph_mock : Bool
  pub has_credentials : Bool
  pub token_reply : ℕ → String → Reply TokenJson
  -- The other answers depend on the token, and on what the request is about.
  pub user_reply : String → String → Reply UserJson
  pub schedule_reply : String → ScheduleInput → Reply (List ScheduleItem)
  pub event_reply : String → EventInput → Reply EventJson
  pub times_reply : String → String → String → ℕ → ℕ → Reply PatchBody
  pub body_reply : String → String → String → String → Reply PatchBody
  pub details_reply : String → String → String → Reply DetailsJson
  pub deletion_reply : String → String → String → Reply ⊤
  pub mail_reply : String → String → MailInput → Reply ⊤
  pub subscription_reply : String → SubscriptionInput → Reply SubscriptionJson
  pub renewal_reply : String → String → String → Reply SubscriptionJson
  pub ms_shared_mailbox : String
  pub trim : String → String
  pub to_lower : String → String
  -- `DateTime.fromISO(text, { zone })`, the zone first.
  pub parse_in_zone : String → String → Option ℕ
  -- A number or an instant in a text.
  pub number_text : ℕ → String

abbrev pub Task : Type 0 → Type 0
Task A = Client → Result A × Client

abbrev pub and_then : {A B : Type 0} → Result A → (A → Task B) → Task B
and_then (ok a) f c = f a c
and_then (err e) f c = (err e, c)

module _ {A : Type 0} where
  pub pure : A → Task A
  pure a c = (ok a, c)

  pub raise : HttpError → Task A
  raise e c = (err e, c)

  pub gets : (Client → A) → Task A
  gets f c = (ok (f c), c)

pub modify : (Client → Client) → Task ⊤
modify f c = (ok tt, f c)

infixl 5 ◌>>=◌ ◌>>◌
-- Opening this opens the tasks above too.
unfoldable pub ◌>>=◌ : {A B : Type 0} → Task A → (A → Task B) → Task B
unfolding pure raise gets modify
◌>>=◌ m f c = let (r, c') = m c in and_then r f c'

abbrev pub ◌>>◌ : {A B : Type 0} → Task A → Task B → Task B
m >> k = m >>= λ _. k

abbrev pub send : Request → Client → Client
send r c = record c { sent = r ∷ c.sent }

-- `res.ok`
abbrev pub is_ok : ℕ → Bool
is_ok status = leb 200 status && ltb status 300

-- `if (!res.ok) throw …; await res.json()`
unfoldable pub json_or_raise : {A : Type 0} → String → Reply A → Task A
json_or_raise name lost = raise (plain_error "fetch failed")
json_or_raise name (answered status none) =
    if is_ok status then raise (plain_error "invalid JSON") else raise (plain_error name)
json_or_raise name (answered status (some a)) =
    if is_ok status then pure a else raise (plain_error name)

-- `tokenCache.get`
unfoldable pub get_token : String → List (String × TokenEntry) → Option TokenEntry
get_token k [] = none
get_token k ((j, e) ∷ l) = if str_eq j k then some e else get_token k l

-- `tokenCache.set`
unfoldable pub set_token :
    String → TokenEntry → List (String × TokenEntry) → List (String × TokenEntry)
set_token k e [] = (k, e) ∷ []
set_token k e ((j, d) ∷ l) = if str_eq j k then (k, e) ∷ l else (j, d) ∷ set_token k e l

-- `expiresAtMs - 60_000 > now`, with the difference moved to the right.
abbrev pub usable_token : ℕ → Option TokenEntry → Option String
usable_token now none = none
usable_token now (some e) = if ltb (now + 60_000) e.expires_at_ms then some e.access_token else none

-- `(json.expires_in || 3600) * 1000`
abbrev pub lifetime_ms : Option ℕ → ℕ
lifetime_ms none = 3_600_000
lifetime_ms (some s) = if s == 0 then 3_600_000 else s * 1000

abbrev pub token_entry : ℕ → TokenJson → TokenEntry
token_entry now j = record {
  access_token = j.access_token;
  expires_at_ms = now + lifetime_ms j.expires_in;
}

unfoldable pub store_token : String → TokenEntry → Client → Client
store_token tenant e c = record c { token_cache = set_token tenant e c.token_cache }

module _ (remote : Remote) (now : ℕ) where
  unfoldable pub fetch_token : String → Task String
  fetch_token tenant = do
    modify (send (token_request tenant))
    json ← json_or_raise "Graph token failed" (remote.token_reply now tenant)
    modify (store_token tenant (token_entry now json))
    pure json.access_token

  unfoldable pub token_or_fetch : String → Option String → Task String
  token_or_fetch tenant (some token) = pure token
  token_or_fetch tenant none = fetch_token tenant

  unfoldable pub cached_or_fetch : String → Task String
  cached_or_fetch tenant = do
    cached ← gets (λ c. get_token tenant c.token_cache)
    token_or_fetch tenant (usable_token now cached)

  -- `getAccessToken`
  unfoldable pub get_access_token : String → Task String
  get_access_token tenant =
      if is_empty tenant
      then raise (plain_error "m365TenantId required")
      else if not remote.has_credentials
      then raise (plain_error "MS_CLIENT_ID/MS_CLIENT_SECRET required")
      else cached_or_fetch tenant

  -- `graphFetch`; the answer depends on the token that the request carries.
  unfoldable pub graph_fetch : {A : Type 0} → String → (String → Reply A) → Task (Reply A)
  graph_fetch tenant answer = do
    token ← get_access_token tenant
    modify (send (authorized tenant token))
    pure (answer token)
