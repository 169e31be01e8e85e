-- ===== src/Graph/Subscriptions.antt =====
-- `GraphSubscriptionWorker.syncSubscriptions` (apps/api/src/services/graph-subscription.worker.ts).
-- What the Graph client and the random generator give is a parameter; the output on the console and
-- the warnings are left out.
pub mod Coverage
pub mod Keyed
use Prim.Native.String.{◌++◌ as ◌++ˢ◌}
use booking_zoom_connect.Prelude.{
  ℕ, String, Bool, true, false, not, ◌&&◌, ◌||◌, Option, none, some, List, [], ◌∷◌, ◌+◌, ◌*◌, ltb,
  ◌==◌, str_eq, if◌then◌else◌, codes, find_first, find_many, update_many, list_eq,
}
use booking_zoom_connect.Store.{
  Db, Tenant, TenantStatus, tenant_pending, tenant_active, tenant_disabled, Salesperson,
  GraphSubscription,
}
use booking_zoom_connect.Service.{text_of, is_some}
use booking_zoom_connect.WebErrors.{lower, has_any}

-- What a request for a subscription gives: its id and when it runs out, or the text of an error.
pub data Outcome : Type 0 where
  made : String → ℕ → Outcome
  failed : List ℕ → Outcome

pub record SyncEnv : Type 0 where
  pub graph_enabled : Bool
  pub worker_enabled : Bool
  pub graph_mock : Bool
  pub ms_shared_mailbox : List ℕ
  pub create : List GraphSubscription → Salesperson → ℕ → Outcome
  pub renew : Salesperson → String → ℕ → Outcome
  pub random_secret : Salesperson → String
  pub new_row_id : List GraphSubscription → ℕ

abbrev pub hour_ms : ℕ
hour_ms = 60 * 60 * 1000

-- SUBSCRIPTION_DURATION_HOURS and RENEWAL_THRESHOLD_MINUTES, in milliseconds.
abbrev pub subscription_duration : ℕ
subscription_duration = 48 * hour_ms

abbrev pub renewal_threshold : ℕ
renewal_threshold = 30 * 60 * 1000

abbrev pub is_subscription_of : Salesperson → GraphSubscription → Bool
is_subscription_of s r = r.tenant_id == s.tenant_id && r.salesperson_id == s.id

abbrev pub has_subscription_id : String → GraphSubscription → Bool
has_subscription_id id r = str_eq r.subscription_id id

abbrev pub new_subscription :
    SyncEnv → Salesperson → String → ℕ → List GraphSubscription → GraphSubscription
new_subscription env s id expires rows = record {
  id = env.new_row_id rows;
  tenant_id = s.tenant_id;
  salesperson_id = s.id;
  subscription_id = id;
  resource = "users/" ++ˢ (s.graph_user_id ++ˢ "/events");
  expires_at = expires;
  client_state = some (env.random_secret s);
}

-- The rows after a round of the loop, and whether the loop goes on.
pub data Round : Type 0 where
  next stop : List GraphSubscription → Round

abbrev pub is_unavailable : List ℕ → Bool
is_unavailable err =
    has_any (lower err) ("mailbox is either inactive" ∷ "soft-deleted" ∷ "hosted on-premise" ∷ [])

-- `subscription_id` is unique: a second row is an error, which the loop passes over.
unfoldable pub insert_subscription :
    GraphSubscription → List GraphSubscription → List GraphSubscription
insert_subscription r rows =
    if is_some (find_first (has_subscription_id r.subscription_id) rows) then rows else r ∷ rows

unfoldable pub created : SyncEnv → Salesperson → List GraphSubscription → Outcome → Round
created env s rows (made id expires) =
    next (insert_subscription (new_subscription env s id expires rows) rows)
created env s rows (failed err) = if is_unavailable err then stop rows else next rows

abbrev pub set_expires : ℕ → GraphSubscription → GraphSubscription
set_expires expires r = record r { expires_at = expires }

unfoldable pub renewed : GraphSubscription → List GraphSubscription → Outcome → Round
renewed old rows (made id expires) =
    next (update_many (λ r. r.id == old.id) (set_expires expires) rows)
renewed old rows (failed err) = next rows

unfoldable pub sync_existing :
    SyncEnv → ℕ → Salesperson → List GraphSubscription → Option GraphSubscription → Round
sync_existing env now s rows none =
    created env s rows (env.create rows s (now + subscription_duration))
sync_existing env now s rows (some r) =
    if ltb r.expires_at (now + renewal_threshold)
    then renewed r rows (env.renew s r.subscription_id (now + subscription_duration))
    else next rows

-- The body of the loop.
unfoldable pub sync_one : SyncEnv → ℕ → Salesperson → List GraphSubscription → Round
sync_one env now s rows = sync_existing env now s rows (find_first (is_subscription_of s) rows)

unfoldable pub sync_each :
    SyncEnv → ℕ → List Salesperson → List GraphSubscription → List GraphSubscription
sync_each env now [] rows = rows
sync_each env now (s ∷ l) rows = elim (sync_one env now s rows) [
  | next after ↦ sync_each env now l after
  | stop after ↦ after
]

abbrev pub is_active_status : TenantStatus → Bool
is_active_status tenant_active = true
is_active_status tenant_pending = false
is_active_status tenant_disabled = false

abbrev pub is_active_tenant : Option Tenant → Bool
is_active_tenant none = false
is_active_tenant (some t) = is_active_status t.status

-- `eligibleSalespersons`
abbrev pub is_eligible : Db → Salesperson → Bool
is_eligible db s = s.active && is_active_tenant (find_first (λ t. t.id == s.tenant_id) db.tenants)

-- `includes("@")`
abbrev pub has_at : List ℕ → Bool
has_at [] = false
has_at (c ∷ s) = if c == b'@' then true else has_at s

abbrev pub is_no_mailbox : List ℕ → Bool
is_no_mailbox [] = true
is_no_mailbox (c ∷ s) = list_eq (c ∷ s) (codes "change-me") || not (has_at (c ∷ s))

unfoldable pub sync_subscriptions :
    SyncEnv → ℕ → Db → List GraphSubscription → List GraphSubscription
sync_subscriptions env now db rows =
    if not env.worker_enabled
    then rows
    else if env.graph_mock
    then rows
    else if is_no_mailbox env.ms_shared_mailbox
    then rows
    else sync_each env now (find_many (is_eligible db) db.salespersons) rows

-- `ensureSubscriptions`, once a minute
unfoldable pub ensure_subscriptions :
    SyncEnv → ℕ → Db → List GraphSubscription → List GraphSubscription
ensure_subscriptions env now db rows =
    if not env.graph_enabled then rows else sync_subscriptions env now db rows
