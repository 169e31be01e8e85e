-- ===== src/Graph/Calls/Honors.antt =====
-- About the calls of `GraphClient` (apps/api/src/clients/graph.client.ts).
use booking_zoom_connect.Prelude.{
  ℕ, String, Bool, true, false, Option, none, some, if◌then◌else◌, ⊤,
}
use booking_zoom_connect.Service.{Result, ok, err, HttpError}
use booking_zoom_connect.Graph.Client.{
  Reply, lost, answered, Client, Remote, Task, pure, raise, gets, modify, ◌>>=◌, and_then,
  json_or_raise, graph_fetch, EventInput, MailInput, SubscriptionInput,
}
use booking_zoom_connect.Graph.Client.Tokens.{IsHonest, graph_fetch-IsHonest}
use booking_zoom_connect.Graph.Calls.{
  or_null, store_email, body_or_raise, gone_or_raise, fetch_email, email_or_fetch,
  resolve_schedule_email, busy_of_email, get_busy_slots, create_event, update_event_times,
  update_event_body, get_event, delete_event, send_mail, create_subscription, renew_subscription,
}

-- The task keeps the client honest, whether it returns or throws.
pub record Honors {A : Type 0} (remote : Remote) (m : Task A) : Type 0 where
  pub at : (c : Client) → IsHonest remote c → IsHonest remote (m c).1

module _ {A : Type 0} {remote : Remote} where
  Honors-pure : (a : A) → Honors remote (pure a)
  unfolding ◌>>=◌
  Honors-pure a = record { at = λ c h. h }

  Honors-raise : (e : HttpError) → Honors remote (raise {A = A} e)
  unfolding ◌>>=◌
  Honors-raise e = record { at = λ c h. h }

  Honors-gets : (f : Client → A) → Honors remote (gets f)
  unfolding ◌>>=◌
  Honors-gets f = record { at = λ c h. h }

  Honors-if :
      (b : Bool) (m n : Task A)
      → Honors remote m
      → Honors remote n
      → Honors remote (if b then m else n)
  Honors-if true m n km kn = km
  Honors-if false m n km kn = kn

  Honors-graph_fetch :
      (now : ℕ) (tenant : String) (answer : String → Reply A)
      → Honors remote (graph_fetch remote now tenant answer)
  Honors-graph_fetch now tenant answer = record {
    at = λ c h. graph_fetch-IsHonest remote now tenant answer c h;
  }

  Honors-or_null : (m : Task A) → Honors remote m → Honors remote (or_null m)
  unfolding or_null
  Honors-or_null m k = record { at = k.at }

  Honors-json_or_raise : (name : String) (r : Reply A) → Honors remote (json_or_raise name r)
  unfolding json_or_raise
  Honors-json_or_raise name lost = Honors-raise _
  Honors-json_or_raise name (answered status none) = search (Honors-if, Honors-raise)
  Honors-json_or_raise name (answered status (some a)) =
      search (Honors-if, Honors-raise, Honors-pure)

module _ {remote : Remote} where
  Honors-body_or_raise :
      {A : Type 0} (name : String) (r : Reply A) → Honors remote (body_or_raise name r)
  unfolding body_or_raise
  Honors-body_or_raise name lost = Honors-raise _
  Honors-body_or_raise name (answered status body) = search (Honors-if, Honors-raise, Honors-pure)

  Honors-gone_or_raise : (r : Reply ⊤) → Honors remote (gone_or_raise r)
  unfolding gone_or_raise
  Honors-gone_or_raise lost = Honors-raise _
  Honors-gone_or_raise (answered status body) = search (Honors-if, Honors-raise, Honors-pure)

  Honors-store_email :
      (k : String × String) (now : ℕ) (email : String)
      → Honors remote (modify (store_email k now email))
  unfolding store_email ◌>>=◌
  Honors-store_email k now email = record {
    at = λ c h. record { cached = h.cached; carried = h.carried };
  }

  Honors-and_then :
      {A B : Type 0} (r : Result A) (f : A → Task B) (c : Client)
      → ((a : A) → Honors remote (f a))
      → IsHonest remote c
      → IsHonest remote (and_then r f c).1
  Honors-and_then (ok a) f c kf h = (kf a).at c h
  Honors-and_then (err e) f c kf h = h

  Honors-bind :
      {A B : Type 0} (m : Task A) (f : A → Task B)
      → Honors remote m
      → ((a : A) → Honors remote (f a))
      → Honors remote (m >>= f)
  unfolding ◌>>=◌
  Honors-bind m f km kf = record {
    at = λ c h. let (r, c') = m c in Honors-and_then r f c' kf (km.at c h);
  }

ruleset honors_rules = (
  Honors-pure, Honors-raise, Honors-gets, Honors-if, Honors-graph_fetch, Honors-or_null,
  Honors-json_or_raise, Honors-body_or_raise, Honors-gone_or_raise, Honors-store_email, Honors-bind,
)

module _ (remote : Remote) (now : ℕ) where
  pub fetch_email-Honors :
      (tenant user : String) → Honors remote (fetch_email remote now tenant user)
  unfolding fetch_email
  fetch_email-Honors tenant user = search honors_rules depth 12

  pub email_or_fetch-Honors :
      (tenant user : String) (o : Option String)
      → Honors remote (email_or_fetch remote now tenant user o)
  unfolding email_or_fetch
  email_or_fetch-Honors tenant user none = Honors-or_null _ (fetch_email-Honors tenant user)
  email_or_fetch-Honors tenant user (some e) = Honors-pure _

  pub resolve_schedule_email-Honors :
      (tenant user : String) → Honors remote (resolve_schedule_email remote now tenant user)
  unfolding resolve_schedule_email
  resolve_schedule_email-Honors tenant user = search (honors_rules, email_or_fetch-Honors)

  pub busy_of_email-Honors :
      (tenant user : String) (start end : ℕ) (o : Option String)
      → Honors remote (busy_of_email remote now tenant user start end o)
  unfolding busy_of_email
  busy_of_email-Honors tenant user start end none = Honors-pure _
  busy_of_email-Honors tenant user start end (some e) = search honors_rules depth 9

  pub get_busy_slots-Honors :
      (tenant user : String) (start end : ℕ)
      → Honors remote (get_busy_slots remote now tenant user start end)
  unfolding get_busy_slots
  get_busy_slots-Honors tenant user start end =
      search (honors_rules, resolve_schedule_email-Honors, busy_of_email-Honors)

  pub create_event-Honors :
      (tenant : String) (i : EventInput) → Honors remote (create_event remote now tenant i)
  unfolding create_event
  create_event-Honors tenant i = search honors_rules depth 12

  pub update_event_times-Honors :
      (tenant o e : String) (start end : ℕ)
      → Honors remote (update_event_times remote now tenant o e start end)
  unfolding update_event_times
  update_event_times-Honors tenant o e start end = search honors_rules depth 12

  pub update_event_body-Honors :
      (tenant o e text : String) → Honors remote (update_event_body remote now tenant o e text)
  unfolding update_event_body
  update_event_body-Honors tenant o e text = search honors_rules depth 12

  pub get_event-Honors : (tenant o e : String) → Honors remote (get_event remote now tenant o e)
  unfolding get_event
  get_event-Honors tenant o e = search honors_rules depth 12

  pub delete_event-Honors :
      (tenant o e : String) → Honors remote (delete_event remote now tenant o e)
  unfolding delete_event
  delete_event-Honors tenant o e = search honors_rules depth 12

  pub send_mail-Honors :
      (tenant : String) (i : MailInput) → Honors remote (send_mail remote now tenant i)
  unfolding send_mail
  send_mail-Honors tenant i = search honors_rules depth 12

  pub create_subscription-Honors :
      (tenant : String) (i : SubscriptionInput)
      → Honors remote (create_subscription remote now tenant i)
  unfolding create_subscription
  create_subscription-Honors tenant i = search honors_rules depth 12

  pub renew_subscription-Honors :
      (tenant id expiration : String)
      → Honors remote (renew_subscription remote now tenant id expiration)
  unfolding renew_subscription
  renew_subscription-Honors tenant id expiration = search honors_rules depth 12
