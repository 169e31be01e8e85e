-- ===== src/Tests/Remotes.antt =====
-- A Microsoft Graph that answers, a salesperson without a subscription, and two notifications.
use Prim.Native.Char.{nul}
use Prim.Native.String.{◌∷◌ as ◌∷ˢ◌}
use booking_zoom_connect.Prelude.{
  ℕ, String, ◌≡◌, refl, ◌⊎◌, inl, inr, true, false, none, some, List, [], ◌∷◌, ◌+◌, ◌%◌, ◌≤◌, ◌^◌,
  In, arith, codes, find_first, zero, suc, length, Bool-cases, str_eq, str_eq_iff, ap, ◌<◌,
}
use booking_zoom_connect.Store.{GraphSubscription}
use booking_zoom_connect.Service.{ok}
use booking_zoom_connect.Graph.Hash.{word, hash, abs_word}
use booking_zoom_connect.Graph.Hash.Laws.{polynomial, hash-polynomial}
use booking_zoom_connect.Graph.Client.{
  Remote, Client, MomentJson, ScheduleItem, SubscriptionJson, answered, lost, get_access_token,
  get_token,
}
use booking_zoom_connect.Graph.Client.Tokens.{IsHonest, IsUsable, get_access_token-Yields}
use booking_zoom_connect.Graph.Calls.Laws.{
  GraphCall, busy_slots, deletion, run_calls, run_calls-IsHonest,
}
use booking_zoom_connect.Graph.Subscriptions.{
  SyncEnv, made, subscription_duration, ensure_subscriptions, has_subscription_id,
}
use booking_zoom_connect.Graph.Subscriptions.Coverage.{
  Grants, IsCovered, ensure_subscriptions-IsCovered,
}
use booking_zoom_connect.Graph.Subscriptions.Keyed.{IsKeyed, ensure_subscriptions-IsKeyed}
use booking_zoom_connect.RateLimit.{path_parts, split_parts}
use booking_zoom_connect.Webhooks.{
  GraphNotification, NewJob, Inbox, WebhookEnv, graph_webhook, handle_notification, take_in,
  accepted, extract_resource_id, add_job,
}
use booking_zoom_connect.Webhooks.Laws.{graph_webhook_again}
use booking_zoom_connect.Webhooks.Origin.{IsAuthentic, graph_webhook-IsAuthentic}
use booking_zoom_connect.Tests.Data.{sato, db_of}

hash-polynomial_example :
    (hash (codes "Sales call") ≡ abs_word (polynomial 0 (codes "Sales call") % word))
    × (hash (codes "Sales call") ≤ 2 ^ 31)
hash-polynomial_example = hash-polynomial (codes "Sales call")

abbrev moment : String → MomentJson
moment s = record { date_time = some s; time_zone = none }

abbrev item : String → ScheduleItem
item status = record { status = some status; start = moment "1"; end = moment "2" }

abbrev subscription_json : SubscriptionJson
subscription_json = record { id = some "sub"; expiration_date_time = none }

abbrev remote : Remote
remote = record {
  graph_mock = false;
  has_credentials = true;
  token_reply = λ now t. answered 200 (some (record { access_token = t; expires_in = none }));
  user_reply =
      λ k u. answered 200 (some (record { mail = some "s@x"; user_principal_name = none }));
  schedule_reply = λ k i. answered 200 (some (item "free" ∷ item "busy" ∷ []));
  event_reply = λ k i. lost;
  times_reply = λ k o e a b. lost;
  body_reply = λ k o e x. lost;
  details_reply = λ k o e. lost;
  deletion_reply = λ k o e. answered 404 none;
  mail_reply = λ k m i. lost;
  subscription_reply = λ k i. answered 201 (some subscription_json);
  renewal_reply = λ k s x. answered 200 (some subscription_json);
  ms_shared_mailbox = "m@x";
  trim = λ s. s;
  to_lower = λ s. s;
  parse_in_zone = λ z s. some 7;
  number_text = λ n. "n";
}

abbrev new_client : Client
new_client = record { token_cache = []; schedule_email_cache = []; sent = [] }

new_client-IsHonest : IsHonest remote new_client
unfolding get_token
new_client-IsHonest = record { cached = λ t e found. ground arith; carried = λ t k m. absurd m }

get_access_token-Yields_example :
    IsHonest remote (get_access_token remote 5 "m365" new_client).1
    × ((token : String)
        → (get_access_token remote 5 "m365" new_client).0 ≡ ok token
        → IsUsable remote 5 "m365" token)
get_access_token-Yields_example =
    get_access_token-Yields remote 5 "m365" new_client new_client-IsHonest

abbrev two_calls : List (ℕ × GraphCall)
two_calls = (5, busy_slots "m365" "sato" 1 2) ∷ (6, deletion "m365" "sato" "event") ∷ []

run_calls-IsHonest_example : IsHonest remote (run_calls remote two_calls new_client)
run_calls-IsHonest_example = run_calls-IsHonest remote two_calls new_client new_client-IsHonest

-- A text of a length, and an id that is longer than all ids of the rows together.
long_text : ℕ → String
long_text zero = ""
long_text (suc n) = nul ∷ˢ long_text n

abbrev total : List GraphSubscription → ℕ
total [] = 0
total (r ∷ rows) = length (codes r.subscription_id) + total rows

length-long_text : (n : ℕ) → length (codes (long_text n)) ≡ n
unfolding long_text
length-long_text zero = refl
length-long_text (suc n) = omega (arith, length-long_text n)

long_text_new :
    (n : ℕ) (rows : List GraphSubscription)
    → total rows < n
    → find_first (has_subscription_id (long_text n)) rows ≡ none
unfolding find_first
long_text_new n [] small = refl
long_text_new n (r ∷ rows) small = elim (Bool-cases (str_eq r.subscription_id (long_text n))) [
  | inr other ↦ ground (arith, long_text_new n rows (omega (arith, small)))
  | inl same ↦
      (let e = ap (λ s. length (codes s)) ((str_eq_iff r.subscription_id (long_text n)).0 same) in
        absurd (omega (arith, e, length-long_text n, small)))
]

abbrev sync_env : SyncEnv
sync_env = record {
  graph_enabled = true;
  worker_enabled = true;
  graph_mock = false;
  ms_shared_mailbox = codes "m@x";
  create = λ rows s expires. made (long_text (suc (total rows))) expires;
  renew = λ s id expires. made id expires;
  random_secret = λ s. "secret";
  new_row_id = λ rows. 1;
}

ensure_subscriptions-IsKeyed_example : IsKeyed (ensure_subscriptions sync_env 5 (db_of []) [])
ensure_subscriptions-IsKeyed_example =
    ensure_subscriptions-IsKeyed sync_env 5 (db_of []) []
      (record { one_each = λ a b ma mb et es. absurd ma; distinct = λ a b ma mb e. absurd ma })

sync_env-Grants : Grants sync_env 5
sync_env-Grants = record {
  creates = λ rows s. (
    long_text (suc (total rows)),
    5 + subscription_duration,
    refl,
    long_text_new (suc (total rows)) rows (omega arith),
    ground arith,
  );
  renews = λ s id. (id, 5 + subscription_duration, refl, ground arith);
}

ensure_subscriptions-IsCovered_example :
    IsCovered 5 (ensure_subscriptions sync_env 5 (db_of []) []) sato
unfolding find_first
ensure_subscriptions-IsCovered_example =
    ensure_subscriptions-IsCovered sync_env 5 (db_of []) [] sato sync_env-Grants refl refl refl refl
      (inl refl) refl

abbrev row : GraphSubscription
row = record {
  id = 1;
  tenant_id = 1;
  salesperson_id = 1;
  subscription_id = "sub";
  resource = "users/sato/events";
  expires_at = 9;
  client_state = some "secret";
}

abbrev notification : GraphNotification
notification = record {
  id = some "n1";
  subscription_id = some "sub";
  change_type = some "updated";
  resource = some (codes "users/sato/events/e1");
  client_state = some "secret";
  resource_data_id = none;
}

abbrev inbox : Inbox
inbox = record { subscriptions = row ∷ []; jobs = []; queue = [] }

abbrev webhook_env : WebhookEnv
webhook_env = record { to_lower = λ s. s; new_job_id = λ jobs. 1 }

graph_webhook_again_example :
    graph_webhook webhook_env 9
      (notification ∷ notification ∷ [])
      (graph_webhook webhook_env 5 (notification ∷ []) inbox)
    ≡ graph_webhook webhook_env 5 (notification ∷ []) inbox
graph_webhook_again_example =
    graph_webhook_again webhook_env 5 9 (notification ∷ []) (notification ∷ notification ∷ []) inbox
      (λ m i. ground arith)

abbrev new_job : NewJob
new_job = record {
  id = 1;
  tenant_id = 1;
  salesperson_id = 1;
  subscription_id = "sub";
  change_type = "updated";
  resource_id = codes "e1";
  received_at_utc = 5;
  notification_id = some "n1";
}

job_made : In new_job (graph_webhook webhook_env 5 (notification ∷ []) inbox).jobs
unfolding graph_webhook handle_notification take_in accepted extract_resource_id path_parts
    split_parts find_first add_job
job_made = inl refl

graph_webhook-IsAuthentic_example :
    In new_job inbox.jobs ⊎ IsAuthentic webhook_env inbox.subscriptions (notification ∷ []) new_job
graph_webhook-IsAuthentic_example =
    graph_webhook-IsAuthentic webhook_env 5 (notification ∷ []) inbox new_job job_made
