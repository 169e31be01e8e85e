-- ===== src/Webhooks/Laws.antt =====
-- About `graphWebhook` (apps/api/src/webhooks.controller.ts).
use booking_zoom_connect.Prelude.{
  ℕ, String, ◌≡◌, refl, ◌⊎◌, inl, inr, true, Option, none, some, List, [], ◌∷◌, In, arith,
  find_first, find_first-here, Bool-cases, Option-cases, str_eq_refl, list_eq_refl, subst, sym, ap,
  ◌∙◌,
}
use booking_zoom_connect.Store.{GraphSubscription}
use booking_zoom_connect.Service.{text_of, is_some}
use booking_zoom_connect.Webhooks.{
  GraphNotification, NewJob, Inbox, WebhookEnv, is_same_job, job_of, accepted, add_job, take_in,
  handle_notification, graph_webhook,
}

-- Nothing is left to do for the notification: it is refused, or its job is there.
abbrev pub IsSettled : WebhookEnv → GraphNotification → Inbox → Type 0
IsSettled env n box =
    (accepted env box.subscriptions n ≡ none)
    ⊎ ((sub : GraphSubscription) × (change : String) × (resource : List ℕ) × (accepted env
            box.subscriptions n
          ≡ some (sub, change, resource))
        × (is_some
              (find_first (is_same_job n.id (text_of n.subscription_id) resource change) box.jobs)
            ≡ true))

module _ (env : WebhookEnv) where
  handle_idle :
      (now : ℕ) (n : GraphNotification) (box : Inbox)
      → IsSettled env n box
      → handle_notification env now n box ≡ box
  unfolding handle_notification take_in
  handle_idle now n box (inl refused) = ground arith
  handle_idle now n box (inr (sub, change, resource, a, known)) = ground arith

  -- The new job is the one that the lookup looks for.
  job_of-is_same_job :
      (id now : ℕ) (sub : GraphSubscription) (n : GraphNotification) (change : String)
      (resource : List ℕ)
      → is_same_job n.id
          (text_of n.subscription_id)
          resource
          change
          (job_of id now sub n change resource)
        ≡ true
  job_of-is_same_job id now sub n change resource = by_id n.id refl
    where
      by_id :
          (o : Option String)
          → n.id ≡ o
          → is_same_job n.id
              (text_of n.subscription_id)
              resource
              change
              (job_of id now sub n change resource)
            ≡ true
      by_id none e = ground (
        arith,
        str_eq_refl (text_of n.subscription_id),
        str_eq_refl change,
        list_eq_refl resource,
      )
      by_id (some s) e = ground (
        arith,
        str_eq_refl s,
        str_eq_refl (text_of n.subscription_id),
        str_eq_refl change,
        list_eq_refl resource,
      )

  -- What handling does: nothing, or it adds the job that the notification asks for.
  pub handle-cases :
      (now : ℕ) (n : GraphNotification) (box : Inbox)
      → ((handle_notification env now n box ≡ box) × IsSettled env n box)
        ⊎ ((sub : GraphSubscription) × (change : String) × (resource : List ℕ) × (accepted env
                box.subscriptions n
              ≡ some (sub, change, resource))
            × (handle_notification env now n box
                ≡ add_job (job_of (env.new_job_id box.jobs) now sub n change resource) box))
  unfolding handle_notification take_in
  handle-cases now n box = elim (Option-cases (accepted env box.subscriptions n)) [
    | inl refused ↦ inl (ground arith, inl refused)
    | inr ((sub, change, resource), a) ↦
        elim (Bool-cases (
          is_some
            (find_first (is_same_job n.id (text_of n.subscription_id) resource change) box.jobs))) [
              | inl known ↦ inl (ground arith, inr (sub, change, resource, a, known))
              | inr new ↦ inr (sub, change, resource, a, ground arith)
            ]
  ]

  add_job-IsSettled :
      (j : NewJob) (m : GraphNotification) (box : Inbox)
      → IsSettled env m box
      → IsSettled env m (add_job j box)
  unfolding add_job find_first
  add_job-IsSettled j m box (inl refused) = inl refused
  add_job-IsSettled j m box (inr (sub, change, resource, a, known)) =
      inr (sub, change, resource, a, ground arith)

  added-IsSettled :
      (n : GraphNotification) (j : NewJob) (sub : GraphSubscription) (change : String)
      (resource : List ℕ) (box : Inbox)
      → accepted env box.subscriptions n ≡ some (sub, change, resource)
      → find_first (is_same_job n.id (text_of n.subscription_id) resource change) (j ∷ box.jobs)
        ≡ some j
      → IsSettled env n (add_job j box)
  unfolding add_job
  added-IsSettled n j sub change resource box a here = inr (sub, change, resource, a, ground arith)

  handle-IsSettled :
      (now : ℕ) (n : GraphNotification) (box : Inbox)
      → IsSettled env n (handle_notification env now n box)
  handle-IsSettled now n box = elim (handle-cases now n box) [
    | inl (same, settled) ↦ subst (IsSettled env n) (sym same) settled
    | inr (sub, change, resource, a, added) ↦
        (let j = job_of (env.new_job_id box.jobs) now sub n change resource in
          let here =
            find_first-here (is_same_job n.id (text_of n.subscription_id) resource change) box.jobs
              j (job_of-is_same_job (env.new_job_id box.jobs) now sub n change resource) in
          subst (IsSettled env n) (sym added) (added-IsSettled n j sub change resource box a here))
  ]

  handle_keeps_IsSettled :
      (now : ℕ) (n m : GraphNotification) (box : Inbox)
      → IsSettled env m box
      → IsSettled env m (handle_notification env now n box)
  handle_keeps_IsSettled now n m box settled = elim (handle-cases now n box) [
    | inl (same, own) ↦ subst (IsSettled env m) (sym same) settled
    | inr (sub, change, resource, a, added) ↦
        subst (IsSettled env m) (sym added) (add_job-IsSettled _ m box settled)
  ]

  graph_webhook_keeps_IsSettled :
      (now : ℕ) (ns : List GraphNotification) (m : GraphNotification) (box : Inbox)
      → IsSettled env m box
      → IsSettled env m (graph_webhook env now ns box)
  unfolding graph_webhook
  graph_webhook_keeps_IsSettled now [] m box settled = settled
  graph_webhook_keeps_IsSettled now (n ∷ ns) m box settled =
      graph_webhook_keeps_IsSettled now ns m _ (handle_keeps_IsSettled now n m box settled)

  graph_webhook-IsSettled :
      (now : ℕ) (ns : List GraphNotification) (m : GraphNotification) (box : Inbox)
      → In m ns
      → IsSettled env m (graph_webhook env now ns box)
  unfolding graph_webhook
  graph_webhook-IsSettled now [] m box i = absurd i
  graph_webhook-IsSettled now (n ∷ ns) m box (inl e) = graph_webhook_keeps_IsSettled now ns m _ (
      subst (λ x. IsSettled env x (handle_notification env now n box)) (sym e)
        (handle-IsSettled now n box))
  graph_webhook-IsSettled now (n ∷ ns) m box (inr i) = graph_webhook-IsSettled now ns m _ i

  all_idle :
      (now : ℕ) (ns : List GraphNotification) (box : Inbox)
      → ((m : GraphNotification) → In m ns → IsSettled env m box)
      → graph_webhook env now ns box ≡ box
  unfolding graph_webhook
  all_idle now [] box settled = refl
  all_idle now (n ∷ ns) box settled =
      let same = handle_idle now n box (settled n (inl refl)) in
      ap (graph_webhook env now ns) same ∙ all_idle now ns box (λ m i. settled m (inr i))

-- A delivery that comes again, at whatever time and in whatever order or number of its notifications,
-- changes nothing.
pub graph_webhook_again :
    (env : WebhookEnv) (now later : ℕ) (ns again : List GraphNotification) (box : Inbox)
    → ((m : GraphNotification) → In m again → In m ns)
    → graph_webhook env later again (graph_webhook env now ns box) ≡ graph_webhook env now ns box
graph_webhook_again env now later ns again box sub =
    all_idle env later again _ (λ m i. graph_webhook-IsSettled env now ns m box (sub m i))
