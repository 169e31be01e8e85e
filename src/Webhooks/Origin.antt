-- ===== src/Webhooks/Origin.antt =====
-- About `graphWebhook` (apps/api/src/webhooks.controller.ts) and the jobs that it makes.
use booking_zoom_connect.Prelude.{
  ℕ, String, ◌≡◌, refl, ◌⊎◌, inl, inr, true, some, List, [], ◌∷◌, In, arith, find_first,
  find_first-In, find_first-test, Option-cases, str_eq, str_eq_iff, subst, sym, ap,
}
use booking_zoom_connect.Store.{GraphSubscription}
use booking_zoom_connect.Service.{text_of}
use booking_zoom_connect.Webhooks.{
  GraphNotification, NewJob, Inbox, WebhookEnv, resource_id_of, state_matches, is_change_type,
  job_of, accepted, add_job, handle_notification, graph_webhook,
}
use booking_zoom_connect.Webhooks.Laws.{handle-cases}

-- The job is what the notification asks for: of a subscription that we have and whose secret the
-- notification gives, if it has one, for one of the three kinds of change, and waiting in the queue.
pub record IsAuthentic (env : WebhookEnv) (subs : List GraphSubscription)
    (ns : List GraphNotification) (j : NewJob) : Type 0 where
  pub notification : GraphNotification
  pub subscription : GraphSubscription
  pub delivered : In notification ns
  pub known : In subscription subs
  pub same_subscription : subscription.subscription_id ≡ text_of notification.subscription_id
  pub secret : state_matches subscription.client_state notification.client_state ≡ true
  pub change : is_change_type (env.to_lower (text_of notification.change_type)) ≡ true
  pub resource :
      resource_id_of notification.resource_data_id notification.resource ≡ some j.resource_id
  pub tenant : j.tenant_id ≡ subscription.tenant_id
  pub salesperson : j.salesperson_id ≡ subscription.salesperson_id

accepted_checks :
    (env : WebhookEnv) (subs : List GraphSubscription) (n : GraphNotification)
    (sub : GraphSubscription) (change : String) (resource : List ℕ)
    → accepted env subs n ≡ some (sub, change, resource)
    → (find_first (λ s. str_eq s.subscription_id (text_of n.subscription_id)) subs ≡ some sub)
      × (state_matches sub.client_state n.client_state ≡ true)
      × (is_change_type (env.to_lower (text_of n.change_type)) ≡ true)
      × (resource_id_of n.resource_data_id n.resource ≡ some resource)
unfolding accepted
accepted_checks env subs n sub change resource a =
    elim (Option-cases (resource_id_of n.resource_data_id n.resource)) [
      | inl missing ↦ ground arith
      | inr (r, has) ↦
          elim (Option-cases
            (find_first (λ s. str_eq s.subscription_id (text_of n.subscription_id)) subs)) [
              | inl unknown ↦ ground arith
              | inr (s, found) ↦ ground arith
            ]
    ]

module _ (env : WebhookEnv) (now : ℕ) where
  accepted-IsAuthentic :
      (n : GraphNotification) (box : Inbox) (sub : GraphSubscription) (change : String)
      (resource : List ℕ) (id : ℕ) (ns : List GraphNotification)
      → In n ns
      → accepted env box.subscriptions n ≡ some (sub, change, resource)
      → IsAuthentic env box.subscriptions ns (job_of id now sub n change resource)
  accepted-IsAuthentic n box sub change resource id ns m a =
      let (found, secret', change', resource') =
        accepted_checks env box.subscriptions n sub change resource a in
      record {
        notification = n;
        subscription = sub;
        delivered = m;
        known = find_first-In _ box.subscriptions sub found;
        same_subscription = (str_eq_iff sub.subscription_id (text_of n.subscription_id)).0 (
            find_first-test (λ s. str_eq s.subscription_id (text_of n.subscription_id))
              box.subscriptions sub found);
        secret = secret';
        change = change';
        resource = resource';
        tenant = refl;
        salesperson = refl;
      }

  -- What a job after a notification is; and the subscriptions stay.
  handle_origin :
      (n : GraphNotification) (box : Inbox) (ns : List GraphNotification)
      → In n ns
      → ((handle_notification env now n box).subscriptions ≡ box.subscriptions)
        × ((j : NewJob)
            → In j (handle_notification env now n box).jobs
            → In j box.jobs ⊎ IsAuthentic env box.subscriptions ns j)
  unfolding add_job
  handle_origin n box ns m = elim (handle-cases env now n box) [
    | inl (same, settled) ↦
        (ap (λ b. b.subscriptions) same, λ j mj. inl (subst (λ (b : Inbox). In j b.jobs) same mj))
    | inr (sub, change, resource, a, added) ↦ (
      ap (λ b. b.subscriptions) added,
      λ j mj. elim (subst (λ (b : Inbox). In j b.jobs) added mj) [
        | inr old ↦ inl old
        | inl new ↦ inr (
            subst (IsAuthentic env box.subscriptions ns) (sym new)
              (accepted-IsAuthentic n box sub change resource (env.new_job_id box.jobs) ns m a))
      ],
    )
  ]

  delivery_origin :
      (rest ns : List GraphNotification) (box : Inbox)
      → ((m : GraphNotification) → In m rest → In m ns)
      → (j : NewJob) → In j (graph_webhook env now rest box).jobs
      → In j box.jobs ⊎ IsAuthentic env box.subscriptions ns j
  unfolding graph_webhook
  delivery_origin [] ns box sub j m = inl m
  delivery_origin (n ∷ rest) ns box sub j m =
      let (same, one) = handle_origin n box ns (sub n (inl refl)) in
      elim (delivery_origin rest ns (handle_notification env now n box) (λ x i. sub x (inr i)) j
        m) [
          | inl before ↦ one j before
          | inr auth ↦
              inr (subst (λ (s : List GraphSubscription). IsAuthentic env s ns j) same auth)
        ]

-- Every job after a delivery was there before, or one of the delivered notifications asks for it: for a
-- subscription that we have and whose secret, if it has one, the notification gives, one of the three
-- kinds of change, and a resource that the notification names.
pub graph_webhook-IsAuthentic :
    (env : WebhookEnv) (now : ℕ) (ns : List GraphNotification) (box : Inbox) (j : NewJob)
    → In j (graph_webhook env now ns box).jobs
    → In j box.jobs ⊎ IsAuthentic env box.subscriptions ns j
graph_webhook-IsAuthentic env now ns box j m = delivery_origin env now ns ns box (λ x i. i) j m
