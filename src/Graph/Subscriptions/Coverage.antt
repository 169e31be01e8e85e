-- ===== src/Graph/Subscriptions/Coverage.antt =====
-- About `GraphSubscriptionWorker` (apps/api/src/services/graph-subscription.worker.ts).
use booking_zoom_connect.Prelude.{
  ℕ, String, ◌≡◌, refl, ◌⊎◌, inl, inr, Bool, true, false, none, some, List, [], ◌∷◌, ◌+◌, ◌≤◌, In,
  arith, find_first, find_many, In-find_many, update_many, Bool-cases, Option-cases, ◌==◌,
  if◌then◌else◌, subst, sym, ltb,
}
use booking_zoom_connect.Store.{Db, Salesperson, GraphSubscription}
use booking_zoom_connect.Graph.Subscriptions.{
  made, SyncEnv, subscription_duration, renewal_threshold, is_subscription_of, has_subscription_id,
  new_subscription, next, insert_subscription, created, set_expires, renewed, sync_existing,
  sync_one, sync_each, is_eligible, is_no_mailbox, sync_subscriptions, ensure_subscriptions,
}

-- The salesperson's subscription lasts for at least half an hour from the instant on.
abbrev pub IsCovered : ℕ → List GraphSubscription → Salesperson → Type 0
IsCovered now rows s =
    (r : GraphSubscription) × (find_first (is_subscription_of s) rows ≡ some r)
    × (now + renewal_threshold ≤ r.expires_at)

-- Microsoft grants what is asked for: a new subscription has an id that no row has, and new and
-- renewed ones last for at least half an hour.
pub record Grants (env : SyncEnv) (now : ℕ) : Type 0 where
  pub creates :
      (rows : List GraphSubscription) (s : Salesperson)
      → (id : String) × (expires : ℕ) × (env.create rows s (now + subscription_duration)
          ≡ made id expires)
        × (find_first (has_subscription_id id) rows ≡ none)
        × (now + renewal_threshold ≤ expires)
  pub renews :
      (s : Salesperson) (id : String)
      → (id' : String) × (expires : ℕ) × (env.renew s id (now + subscription_duration)
          ≡ made id' expires)
        × (now + renewal_threshold ≤ expires)

-- A search whose test the update does not touch.
find_first-update_kept :
    (p q : GraphSubscription → Bool) (f : GraphSubscription → GraphSubscription)
    (rows : List GraphSubscription) (r : GraphSubscription)
    → ((x : GraphSubscription) → p (f x) ≡ p x)
    → find_first p rows ≡ some r
    → find_first p (update_many q f rows) ≡ some (if q r then f r else r)
unfolding find_first update_many
find_first-update_kept p q f [] r same found = ground arith
find_first-update_kept p q f (x ∷ rows) r same found =
    ground (arith, same x, find_first-update_kept p q f rows r same)

module _ (env : SyncEnv) (now : ℕ) (grants : Grants env now) where
  renewed-IsCovered :
      (old : GraphSubscription) (expires : ℕ) (rows : List GraphSubscription) (s : Salesperson)
      → now + renewal_threshold ≤ expires
      → (r : GraphSubscription) → find_first (is_subscription_of s) rows ≡ some r
      → (now + renewal_threshold ≤ r.expires_at) ⊎ (r ≡ old)
      → IsCovered now (update_many (λ x. x.id == old.id) (set_expires expires) rows) s
  renewed-IsCovered old expires rows s long r found was = (
    (if r.id == old.id then set_expires expires r else r),
    find_first-update_kept (is_subscription_of s) (λ x. x.id == old.id) (set_expires expires) rows r
        (λ x. refl) found,
    ground arith,
  )

  inserted-IsCovered :
      (new : GraphSubscription) (rows : List GraphSubscription) (s : Salesperson)
      → find_first (has_subscription_id new.subscription_id) rows ≡ none
      → now + renewal_threshold ≤ new.expires_at
      → (is_subscription_of s new ≡ true) ⊎ IsCovered now rows s
      → IsCovered now (insert_subscription new rows) s
  unfolding insert_subscription find_first
  inserted-IsCovered new rows s free long was = elim (Bool-cases (is_subscription_of s new)) [
    | inl mine ↦ (new, ground arith, long)
    | inr other ↦ elim was [
      | inl mine ↦ absurd (ground arith)
      | inr (r, found, lasts) ↦ (r, ground arith, lasts)
    ]
  ]

  -- A round goes on, covers its salesperson, and leaves every covered one covered.
  sync_one-IsCovered :
      (s : Salesperson) (rows : List GraphSubscription)
      → (after : List GraphSubscription) × (sync_one env now s rows ≡ next after)
        × IsCovered now after s
        × ((t : Salesperson) → IsCovered now rows t → IsCovered now after t)
  unfolding sync_one sync_existing created renewed
  sync_one-IsCovered s rows = elim (Option-cases (find_first (is_subscription_of s) rows)) [
    | inl nothing ↦
        (let (id, expires, made', free, long) = grants.creates rows s in
          let new = new_subscription env s id expires rows in
          (
            insert_subscription new rows,
            ground arith,
            inserted-IsCovered new rows s free long (inl (ground arith)),
            λ t was. inserted-IsCovered new rows t free long (inr was),
          ))
    | inr (old, found) ↦ elim (Bool-cases (ltb old.expires_at (now + renewal_threshold))) [
      | inr lasts ↦ (rows, ground arith, (old, found, ground arith), λ t was. was)
      | inl runs_out ↦
          (let (id, expires, made', long) = grants.renews s old.subscription_id in
            (
              update_many (λ x. x.id == old.id) (set_expires expires) rows,
              ground arith,
              renewed-IsCovered old expires rows s long old found (inr refl),
              λ t (r, found', lasts).
                  renewed-IsCovered old expires rows t long r found' (inl lasts),
            ))
    ]
  ]

  sync_each-IsCovered :
      (l : List Salesperson) (rows : List GraphSubscription) (s : Salesperson)
      → In s l ⊎ IsCovered now rows s
      → IsCovered now (sync_each env now l rows) s
  unfolding sync_each
  sync_each-IsCovered [] rows s was = elim was [ inl m ↦ absurd m | inr c ↦ c ]
  sync_each-IsCovered (x ∷ l) rows s was =
      let (after, e, mine, others) = sync_one-IsCovered x rows in
      let was' : In s l ⊎ IsCovered now after s = elim was [
        | inl (inl here) ↦ inr (subst (IsCovered now after) (sym here) mine)
        | inl (inr later) ↦ inl later
        | inr c ↦ inr (others s c)
      ] in
      let rest = sync_each-IsCovered l after s was' in rw (e, sync_each) rest

-- With the worker switched on and a mailbox set, and as long as Microsoft grants what is asked for, a run
-- leaves every active salesperson of an active tenant with a subscription that lasts for at least half
-- an hour more.
pub ensure_subscriptions-IsCovered :
    (env : SyncEnv) (now : ℕ) (db : Db) (rows : List GraphSubscription) (s : Salesperson)
    → Grants env now
    → env.graph_enabled ≡ true
    → env.worker_enabled ≡ true
    → env.graph_mock ≡ false
    → is_no_mailbox env.ms_shared_mailbox ≡ false
    → In s db.salespersons
    → is_eligible db s ≡ true
    → IsCovered now (ensure_subscriptions env now db rows) s
unfolding ensure_subscriptions sync_subscriptions
ensure_subscriptions-IsCovered env now db rows s grants on works real mailbox m fits =
    let run : ensure_subscriptions env now db rows
        ≡ sync_each env now (find_many (is_eligible db) db.salespersons) rows =
      ground arith in
    subst (λ (after : List GraphSubscription). IsCovered now after s) (sym run)
      (sync_each-IsCovered env now grants (find_many (is_eligible db) db.salespersons) rows s
        (inl (In-find_many (is_eligible db) db.salespersons s m fits)))
