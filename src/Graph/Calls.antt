-- ===== src/Graph/Calls.antt =====
-- The calls of `GraphClient` (apps/api/src/clients/graph.client.ts) over `graphFetch`. Instants go out
-- cut to the second; what the code writes into a request beside its arguments is constant and left out.
pub mod Honors
pub mod Laws
use Prim.Native.String.{◌++◌ as ◌++ˢ◌}
use booking_zoom_connect.Prelude.{
  ℕ, String, ⊤, Bool, true, false, ◌&&◌, ◌||◌, not, Option, none, some, List, [], ◌∷◌, ◌+◌, ◌*◌,
  ◌/◌, ltb, ◌==◌, str_eq, if◌then◌else◌, codes,
}
use booking_zoom_connect.Service.{
  Slot, Result, ok, err, HttpError, plain_error, is_empty, is_blank, text_of, or_text,
}
use booking_zoom_connect.Graph.Hash.{hash}
use booking_zoom_connect.Graph.Client.{
  Reply, lost, answered, UserJson, EmailEntry, Client, Remote, ScheduleInput, MomentJson,
  ScheduleItem, EventInput, EventJson, PatchBody, DetailsJson, MailInput, SubscriptionInput,
  SubscriptionJson, Task, pure, raise, gets, modify, ◌>>=◌, ◌>>◌, is_ok, json_or_raise, graph_fetch,
}

-- The key of `scheduleEmailCache`, both parts of it.
abbrev pub same_user : String × String → String × String → Bool
same_user (a, b) (c, d) = str_eq a c && str_eq b d

unfoldable pub get_email :
    String × String → List ((String × String) × EmailEntry) → Option EmailEntry
get_email k [] = none
get_email k ((j, e) ∷ l) = if same_user j k then some e else get_email k l

-- `cached && cached.expiresAtMs > now`
abbrev pub usable_email : ℕ → Option EmailEntry → Option String
usable_email now none = none
usable_email now (some e) = if ltb now e.expires_at_ms then some e.email else none

-- `scheduleEmailTtlMs`
abbrev pub schedule_email_ttl_ms : ℕ
schedule_email_ttl_ms = 24 * 60 * 60 * 1000

-- A new entry stands before the old ones of its key.
unfoldable pub store_email : String × String → ℕ → String → Client → Client
store_email k now email c = record c {
  schedule_email_cache =
      (k, record { email = email; expires_at_ms = now + schedule_email_ttl_ms })
      ∷ c.schedule_email_cache;
}

abbrev pub result_or_none : {A : Type 0} → Result A → Option A
result_or_none (ok a) = some a
result_or_none (err e) = none

-- `try { … } catch { return null; }`
unfoldable pub or_null : {A : Type 0} → Task A → Task (Option A)
or_null m c = let (r, c') = m c in (ok (result_or_none r), c')

-- The start or the end of an item: no value where the text is missing or invalid.
abbrev pub read_moment : Remote → MomentJson → Option ℕ
read_moment remote m =
    if is_blank m.date_time
    then none
    else remote.parse_in_zone (or_text (text_of m.time_zone) "UTC") (text_of m.date_time)

abbrev pub both_times : Option ℕ → Option ℕ → List Slot → List Slot
both_times (some s) (some e) rest = record { start_at_utc = s; end_at_utc = e } ∷ rest
both_times _ _ rest = rest

-- The loop over `scheduleItems`.
unfoldable pub busy_items : Remote → List ScheduleItem → List Slot
busy_items remote [] = []
busy_items remote (it ∷ items) =
    let rest = busy_items remote items in
    if str_eq (remote.to_lower (text_of it.status)) "free"
    then rest
    else both_times (read_moment remote it.start) (read_moment remote it.end) rest

-- `isoNoZ`
abbrev pub iso_no_z : ℕ → ℕ
iso_no_z t = t / 1000 * 1000

pub record EventResult : Type 0 where
  pub event_id : String
  pub i_cal_uid : String
  pub etag : String

pub record EventDetails : Type 0 where
  pub event_id : String
  pub start_utc : Option ℕ
  pub end_utc : Option ℕ
  pub etag : String

pub record SubscriptionResult : Type 0 where
  pub subscription_id : String
  pub expires_at_utc : String

abbrev pub event_result : EventJson → EventResult
event_result j = record {
  event_id = text_of j.id;
  i_cal_uid = text_of j.i_cal_uid;
  etag = text_of j.etag;
}

-- `readPatchEtag`; a body that cannot be read stands for an answer with neither.
abbrev pub patch_etag : Option PatchBody → String
patch_etag none = ""
patch_etag (some b) = or_text (text_of b.json_etag) (text_of b.header_etag)

-- `if (!res.ok) throw …` where the body is not read as JSON.
unfoldable pub body_or_raise : {A : Type 0} → String → Reply A → Task (Option A)
body_or_raise name lost = raise (plain_error "fetch failed")
body_or_raise name (answered status body) =
    if is_ok status then pure body else raise (plain_error name)

-- `if (!res.ok && res.status !== 404) throw …`
unfoldable pub gone_or_raise : Reply ⊤ → Task ⊤
gone_or_raise lost = raise (plain_error "fetch failed")
gone_or_raise (answered status body) =
    if not (is_ok status) && not (status == 404)
    then raise (plain_error "deleteEvent failed")
    else pure tt

abbrev pub subscription_result : String → String → SubscriptionJson → SubscriptionResult
subscription_result id expiration j = record {
  subscription_id = or_text (text_of j.id) id;
  expires_at_utc = or_text (text_of j.expiration_date_time) expiration;
}

module _ (remote : Remote) (now : ℕ) where
  unfoldable pub fetch_email : String → String → Task String
  fetch_email tenant user = do
    res ← graph_fetch remote now tenant (λ token. remote.user_reply token user)
    json ← json_or_raise "resolveScheduleEmail failed" res
    let email = remote.trim (or_text (text_of json.mail) (text_of json.user_principal_name))
    if is_empty email
        then raise (plain_error "mail and userPrincipalName are empty")
        else (modify (store_email (tenant, user) now email) >> pure email)

  unfoldable pub email_or_fetch : String → String → Option String → Task (Option String)
  email_or_fetch tenant user (some email) = pure (some email)
  email_or_fetch tenant user none = or_null (fetch_email tenant user)

  unfoldable pub resolve_schedule_email : String → String → Task (Option String)
  resolve_schedule_email tenant user = do
    cached ← gets (λ c. get_email (tenant, user) c.schedule_email_cache)
    email_or_fetch tenant user (usable_email now cached)

  unfoldable pub busy_of_email : String → String → ℕ → ℕ → Option String → Task (List Slot)
  busy_of_email tenant user start end none = pure []
  busy_of_email tenant user start end (some email) = do
    res ← graph_fetch remote now tenant (λ token.
        remote.schedule_reply token
          (record { user = user; schedule = email; start = iso_no_z start; end = iso_no_z end }))
    items ← json_or_raise "getSchedule failed" res
    pure (busy_items remote items)

  unfoldable pub get_busy_slots : String → String → ℕ → ℕ → Task (List Slot)
  get_busy_slots tenant user start end = if remote.graph_mock then pure [] else (do
    email ← resolve_schedule_email tenant user
    busy_of_email tenant user start end email)

  abbrev pub mock_id : String → String → String
  mock_id prefix subject =
      prefix ++ˢ (remote.number_text (hash (codes subject)) ++ˢ ("-" ++ˢ remote.number_text now))

  abbrev pub mock_etag : String
  mock_etag = "mock-etag-" ++ˢ remote.number_text now

  abbrev pub sent_input : EventInput → EventInput
  sent_input i = record i { start_utc = iso_no_z i.start_utc; end_utc = iso_no_z i.end_utc }

  unfoldable pub create_event : String → EventInput → Task EventResult
  create_event tenant i =
      if remote.graph_mock
      then pure (record {
        event_id = mock_id "mock-event-" i.subject;
        i_cal_uid = mock_id "mock-ical-" i.subject;
        etag = mock_etag;
      })
      else if is_empty tenant
      then raise (plain_error "m365TenantId required")
      else (do
        res ← graph_fetch remote now tenant (λ token. remote.event_reply token (sent_input i))
        json ← json_or_raise "createEvent failed" res
        pure (event_result json))

  unfoldable pub update_event_times : String → String → String → ℕ → ℕ → Task String
  update_event_times tenant organizer event start end =
      if remote.graph_mock then pure mock_etag else (do
        res ←
            graph_fetch remote now tenant
              (λ token. remote.times_reply token organizer event (iso_no_z start) (iso_no_z end))
        body ← body_or_raise "updateEventTimes failed" res
        pure (patch_etag body))

  unfoldable pub update_event_body : String → String → String → String → Task String
  update_event_body tenant organizer event text = if remote.graph_mock then pure mock_etag else (do
    res ← graph_fetch remote now tenant (λ token. remote.body_reply token organizer event text)
    body ← body_or_raise "updateEventBody failed" res
    pure (patch_etag body))

  -- An invalid time is `none`, the code's empty text.
  abbrev pub event_details : String → DetailsJson → EventDetails
  event_details event j = record {
    event_id = or_text (text_of j.id) event;
    start_utc =
        remote.parse_in_zone (or_text (text_of j.start.time_zone) "UTC")
          (text_of j.start.date_time);
    end_utc =
        remote.parse_in_zone (or_text (text_of j.end.time_zone) "UTC") (text_of j.end.date_time);
    etag = text_of j.etag;
  }

  -- With all three arguments.
  unfoldable pub get_event : String → String → String → Task EventDetails
  get_event tenant organizer event =
      if remote.graph_mock
      then pure (record {
        event_id = event;
        start_utc = some (now + 15 * 60_000);
        end_utc = some (now + 75 * 60_000);
        etag = mock_etag;
      })
      else (do
        res ← graph_fetch remote now tenant (λ token. remote.details_reply token organizer event)
        json ← json_or_raise "getEvent failed" res
        pure (event_details event json))

  unfoldable pub delete_event : String → String → String → Task ⊤
  delete_event tenant organizer event =
      if remote.graph_mock
      then pure tt
      else if is_empty tenant || is_empty organizer
      then raise (plain_error "m365TenantId/organizerUserId required")
      else (do
        res ← graph_fetch remote now tenant (λ token. remote.deletion_reply token organizer event)
        gone_or_raise res)

  unfoldable pub send_mail : String → MailInput → Task ⊤
  send_mail tenant i =
      if remote.graph_mock
      then pure tt
      else if is_empty tenant
      then raise (plain_error "sendMail(m365TenantId, input) required")
      else if is_empty remote.ms_shared_mailbox
      then raise (plain_error "MS_SHARED_MAILBOX required for app-only sendMail")
      else (do
        res ←
            graph_fetch remote now tenant
              (λ token. remote.mail_reply token remote.ms_shared_mailbox i)
        body_or_raise "sendMail failed" res
        pure tt)

  unfoldable pub create_subscription : String → SubscriptionInput → Task SubscriptionResult
  create_subscription tenant i =
      if remote.graph_mock
      then pure (record {
        subscription_id = mock_id "mock-sub-" i.resource;
        expires_at_utc = i.expiration_utc;
      })
      else if is_empty tenant
      then raise (plain_error "m365TenantId required")
      else (do
        res ← graph_fetch remote now tenant (λ token. remote.subscription_reply token i)
        json ← json_or_raise "createSubscription failed" res
        pure (subscription_result "" i.expiration_utc json))

  unfoldable pub renew_subscription : String → String → String → Task SubscriptionResult
  renew_subscription tenant id expiration =
      if remote.graph_mock
      then pure (record { subscription_id = id; expires_at_utc = expiration })
      else if is_empty tenant
      then raise (plain_error "m365TenantId required")
      else (do
        res ← graph_fetch remote now tenant (λ token. remote.renewal_reply token id expiration)
        json ← json_or_raise "renewSubscription failed" res
        pure (subscription_result id expiration json))
