-- ===== src/Webhooks.antt =====
-- `WebhooksController.graphWebhook` (apps/api/src/webhooks.controller.ts) and `extractResourceId`: what a
-- delivery of notifications adds to the jobs and to the queue. The notifications of a delivery are taken
-- one after the other; `dedupe_key`, which repeats what the lookup compares, the stored payload and
-- the response are left out.
pub mod Laws
pub mod Origin
use booking_zoom_connect.Prelude.{
  ℕ, String, Bool, true, false, not, ◌&&◌, ◌||◌, Option, none, some, List, [], ◌∷◌, ◌==◌, str_eq,
  if◌then◌else◌, find_first, list_eq,
}
use booking_zoom_connect.Store.{GraphSubscription}
use booking_zoom_connect.Service.{is_blank, is_empty, text_of, is_some}
use booking_zoom_connect.RateLimit.{path_parts}
use booking_zoom_connect.Jobs.Queue.{enqueue}

pub record GraphNotification : Type 0 where
  pub id : Option String
  pub subscription_id : Option String
  pub change_type : Option String
  pub resource : Option (List ℕ)
  pub client_state : Option String
  pub resource_data_id : Option (List ℕ)

-- The columns of a new job.
pub record NewJob : Type 0 where
  pub id : ℕ
  pub tenant_id : ℕ
  pub salesperson_id : ℕ
  pub subscription_id : String
  pub change_type : String
  pub resource_id : List ℕ
  pub received_at_utc : ℕ
  pub notification_id : Option String

pub record Inbox : Type 0 where
  pub subscriptions : List GraphSubscription
  pub jobs : List NewJob
  pub queue : List ℕ

-- `toLowerCase`, and the ids that the database gives.
pub record WebhookEnv : Type 0 where
  pub to_lower : String → String
  pub new_job_id : List NewJob → ℕ

abbrev pub last_part : List (List ℕ) → Option (List ℕ)
last_part [] = none
last_part (p ∷ []) = some p
last_part (p ∷ q ∷ ps) = last_part (q ∷ ps)

-- `extractResourceId`; a part that is left is not empty.
unfoldable pub extract_resource_id : Option (List ℕ) → Option (List ℕ)
extract_resource_id none = none
extract_resource_id (some resource) = last_part (path_parts resource)

-- `notification.resourceData?.id || extractResourceId(notification.resource)`
abbrev pub resource_id_of : Option (List ℕ) → Option (List ℕ) → Option (List ℕ)
resource_id_of (some (c ∷ s)) resource = some (c ∷ s)
resource_id_of (some []) resource = extract_resource_id resource
resource_id_of none resource = extract_resource_id resource

-- The check of `clientState`, against what the subscription has.
abbrev pub state_matches : Option String → Option String → Bool
state_matches expected given =
    if is_blank expected
    then true
    else if is_blank given
    then false
    else str_eq (text_of given) (text_of expected)

-- The `enum` of GraphWebhookJobPayloadSchema
abbrev pub is_change_type : String → Bool
is_change_type c = str_eq c "created" || str_eq c "updated" || str_eq c "deleted"

abbrev pub opt_eq : Option String → Option String → Bool
opt_eq none none = true
opt_eq (some a) (some b) = str_eq a b
opt_eq _ _ = false

-- The lookup of a job that is there already: by the notification's id, or by what it is about.
abbrev pub is_same_job : Option String → String → List ℕ → String → NewJob → Bool
is_same_job id subscription resource change j =
    if is_blank id
    then str_eq j.subscription_id subscription
      && list_eq j.resource_id resource
      && str_eq j.change_type change
    else opt_eq j.notification_id id

abbrev pub job_of : ℕ → ℕ → GraphSubscription → GraphNotification → String → List ℕ → NewJob
job_of id now sub n change resource = record {
  id = id;
  tenant_id = sub.tenant_id;
  salesperson_id = sub.salesperson_id;
  subscription_id = text_of n.subscription_id;
  change_type = change;
  resource_id = resource;
  received_at_utc = now;
  notification_id = n.id;
}

-- What a notification asks for, if it passes all checks: its subscription, change and resource.
unfoldable pub accepted :
    WebhookEnv
    → List GraphSubscription
    → GraphNotification
    → Option (GraphSubscription × String × List ℕ)
accepted env subs n =
    let change = env.to_lower (text_of n.change_type) in
    if is_blank n.subscription_id || is_empty change
    then none
    else elim (resource_id_of n.resource_data_id n.resource) [
      | none ↦ none
      | some resource ↦
          elim (find_first (λ s. str_eq s.subscription_id (text_of n.subscription_id)) subs) [
            | none ↦ none
            | some sub ↦
                if not (state_matches sub.client_state n.client_state)
                then none
                else if not (is_change_type change)
                then none
                else some (sub, change, resource)
          ]
    ]

-- `webhookJob.create` and `queue.enqueue`
unfoldable pub add_job : NewJob → Inbox → Inbox
add_job j box = record box { jobs = j ∷ box.jobs; queue = enqueue j.id box.queue }

unfoldable pub take_in :
    WebhookEnv
    → ℕ
    → GraphNotification
    → Option (GraphSubscription × String × List ℕ)
    → Inbox
    → Inbox
take_in env now n none box = box
take_in env now n (some (sub, change, resource)) box =
    if is_some (find_first (is_same_job n.id (text_of n.subscription_id) resource change) box.jobs)
    then box
    else add_job (job_of (env.new_job_id box.jobs) now sub n change resource) box

unfoldable pub handle_notification : WebhookEnv → ℕ → GraphNotification → Inbox → Inbox
handle_notification env now n box = take_in env now n (accepted env box.subscriptions n) box

-- `graphWebhook`, without a validation token
unfoldable pub graph_webhook : WebhookEnv → ℕ → List GraphNotification → Inbox → Inbox
graph_webhook env now [] box = box
graph_webhook env now (n ∷ ns) box = graph_webhook env now ns (handle_notification env now n box)
