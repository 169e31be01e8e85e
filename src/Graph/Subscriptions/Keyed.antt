-- ===== src/Graph/Subscriptions/Keyed.antt =====
-- About the rows of `GraphSubscriptionWorker` (apps/api/src/services/graph-subscription.worker.ts).
use booking_zoom_connect.Prelude.{
  ℕ, ◌≡◌, ◌≢◌, refl, ◌⊎◌, inl, inr, Bool, true, false, not, none, List, [], ◌∷◌, ◌+◌, In, arith,
  find_first, find_many, update_many, Bool-cases, Option-cases, if◌then◌else◌, find_first-none,
  In-update_many, str_eq_iff, subst, sym, ltb, ◌∙◌,
}
use booking_zoom_connect.Store.{Db, Salesperson, GraphSubscription}
use booking_zoom_connect.Graph.Subscriptions.{
  Outcome, made, failed, SyncEnv, renewal_threshold, is_subscription_of, is_unavailable,
  has_subscription_id, new_subscription, Round, next, stop, insert_subscription, created,
  set_expires, renewed, sync_existing, sync_one, sync_each, is_eligible, is_no_mailbox,
  sync_subscriptions, ensure_subscriptions,
}

-- No two rows are of one salesperson, and no two have one subscription id.
pub record IsKeyed (rows : List GraphSubscription) : Type 0 where
  pub one_each :
      (a b : GraphSubscription)
      → In a rows
      → In b rows
      → a.tenant_id ≡ b.tenant_id
      → a.salesperson_id ≡ b.salesperson_id
      → a ≡ b
  pub distinct :
      (a b : GraphSubscription)
      → In a rows
      → In b rows
      → a.subscription_id ≡ b.subscription_id
      → a ≡ b

cons-IsKeyed :
    (r : GraphSubscription) (rows : List GraphSubscription)
    → find_first (has_subscription_id r.subscription_id) rows ≡ none
    → ((o : GraphSubscription)
        → In o rows
        → o.tenant_id ≡ r.tenant_id
        → o.salesperson_id ≢ r.salesperson_id)
    → IsKeyed rows
    → IsKeyed (r ∷ rows)
cons-IsKeyed r rows free alone k = record { one_each = one; distinct = apart }
  where
    one :
        (a b : GraphSubscription)
        → In a (r ∷ rows)
        → In b (r ∷ rows)
        → a.tenant_id ≡ b.tenant_id
        → a.salesperson_id ≡ b.salesperson_id
        → a ≡ b
    one a b (inl ea) (inl eb) et es = ea ∙ sym eb
    one a b (inl ea) (inr mb) et es = absurd (alone b mb (ground arith) (ground arith))
    one a b (inr ma) (inl eb) et es = absurd (alone a ma (ground arith) (ground arith))
    one a b (inr ma) (inr mb) et es = k.one_each a b ma mb et es

    new_id : (o : GraphSubscription) → In o rows → o.subscription_id ≢ r.subscription_id
    new_id o m e = ground (
      arith,
      find_first-none (has_subscription_id r.subscription_id) rows o free m,
      (str_eq_iff o.subscription_id r.subscription_id).1 e,
    )

    apart :
        (a b : GraphSubscription)
        → In a (r ∷ rows)
        → In b (r ∷ rows)
        → a.subscription_id ≡ b.subscription_id
        → a ≡ b
    apart a b (inl ea) (inl eb) e = ea ∙ sym eb
    apart a b (inl ea) (inr mb) e = absurd (new_id b mb (ground arith))
    apart a b (inr ma) (inl eb) e = absurd (new_id a ma (ground arith))
    apart a b (inr ma) (inr mb) e = k.distinct a b ma mb e

insert_subscription-IsKeyed :
    (r : GraphSubscription) (rows : List GraphSubscription)
    → ((o : GraphSubscription)
        → In o rows
        → o.tenant_id ≡ r.tenant_id
        → o.salesperson_id ≢ r.salesperson_id)
    → IsKeyed rows
    → IsKeyed (insert_subscription r rows)
unfolding insert_subscription
insert_subscription-IsKeyed r rows alone k =
    elim (Option-cases (find_first (has_subscription_id r.subscription_id) rows)) [
      | inr (o, found) ↦ rw found k
      | inl free ↦ rw free (cons-IsKeyed r rows free alone k)
    ]

update_expires-IsKeyed :
    (p : GraphSubscription → Bool) (expires : ℕ) (rows : List GraphSubscription)
    → IsKeyed rows
    → IsKeyed (update_many p (set_expires expires) rows)
update_expires-IsKeyed p expires rows k = record { one_each = one; distinct = apart }
  where
    origin :
        (a : GraphSubscription)
        → In a (update_many p (set_expires expires) rows)
        → (c : GraphSubscription) × In c rows
          × (a.tenant_id ≡ c.tenant_id)
          × (a.salesperson_id ≡ c.salesperson_id)
          × (a.subscription_id ≡ c.subscription_id)
          × (a ≡ (if p c then set_expires expires c else c))
    origin a m = elim (In-update_many p (set_expires expires) rows a m) [
      | inl (old, kept) ↦ (a, old, refl, refl, refl, ground arith)
      | inr (c, old, hit, e) ↦ (c, old, ground arith, ground arith, ground arith, ground arith)
    ]

    one :
        (a b : GraphSubscription)
        → In a (update_many p (set_expires expires) rows)
        → In b (update_many p (set_expires expires) rows)
        → a.tenant_id ≡ b.tenant_id
        → a.salesperson_id ≡ b.salesperson_id
        → a ≡ b
    one a b ma mb et es =
        let (x, mx, tx, sx, ix, ex) = origin a ma in
        let (y, my, ty, sy, iy, ey) = origin b mb in
        let same : x ≡ y = k.one_each x y mx my (sym tx ∙ et ∙ ty) (sym sx ∙ es ∙ sy) in
        ground arith

    apart :
        (a b : GraphSubscription)
        → In a (update_many p (set_expires expires) rows)
        → In b (update_many p (set_expires expires) rows)
        → a.subscription_id ≡ b.subscription_id
        → a ≡ b
    apart a b ma mb e =
        let (x, mx, tx, sx, ix, ex) = origin a ma in
        let (y, my, ty, sy, iy, ey) = origin b mb in
        let same : x ≡ y = k.distinct x y mx my (sym ix ∙ e ∙ iy) in ground arith

abbrev rows_of : Round → List GraphSubscription
rows_of (next rows) = rows
rows_of (stop rows) = rows

created-IsKeyed :
    (env : SyncEnv) (s : Salesperson) (rows : List GraphSubscription) (o : Outcome)
    → find_first (is_subscription_of s) rows ≡ none
    → IsKeyed rows
    → IsKeyed (rows_of (created env s rows o))
unfolding created
created-IsKeyed env s rows (made id expires) nothing k =
    insert_subscription-IsKeyed (new_subscription env s id expires rows) rows
      (λ o m et es. ground (arith, find_first-none (is_subscription_of s) rows o nothing m)) k
created-IsKeyed env s rows (failed err) nothing k = elim (Bool-cases (is_unavailable err)) [
  | inl gone ↦ rw gone k
  | inr other ↦ rw other k
]

renewed-IsKeyed :
    (old : GraphSubscription) (rows : List GraphSubscription) (o : Outcome)
    → IsKeyed rows
    → IsKeyed (rows_of (renewed old rows o))
unfolding renewed
renewed-IsKeyed old rows (made id expires) k = update_expires-IsKeyed _ expires rows k
renewed-IsKeyed old rows (failed err) k = k

sync_one-IsKeyed :
    (env : SyncEnv) (now : ℕ) (s : Salesperson) (rows : List GraphSubscription)
    → IsKeyed rows
    → IsKeyed (rows_of (sync_one env now s rows))
unfolding sync_one sync_existing
sync_one-IsKeyed env now s rows k = elim (Option-cases (find_first (is_subscription_of s) rows)) [
  | inl nothing ↦ rw nothing (created-IsKeyed env s rows _ nothing k)
  | inr (r, found) ↦ elim (Bool-cases (ltb r.expires_at (now + renewal_threshold))) [
    | inl runs_out ↦ rw found (rw runs_out (renewed-IsKeyed r rows _ k))
    | inr lasts ↦ rw found (rw lasts k)
  ]
]

Round-cases :
    (r : Round)
    → ((after : List GraphSubscription) × (r ≡ next after))
      ⊎ ((after : List GraphSubscription) × (r ≡ stop after))
Round-cases (next after) = inl (after, refl)
Round-cases (stop after) = inr (after, refl)

sync_each-IsKeyed :
    (env : SyncEnv) (now : ℕ) (l : List Salesperson) (rows : List GraphSubscription)
    → IsKeyed rows
    → IsKeyed (sync_each env now l rows)
unfolding sync_each
sync_each-IsKeyed env now [] rows k = k
sync_each-IsKeyed env now (s ∷ l) rows k =
    let kept = sync_one-IsKeyed env now s rows k in
    elim (Round-cases (sync_one env now s rows)) [
      | inl (after, e) ↦
          rw (e, sync_each)
            (sync_each-IsKeyed env now l after (subst (λ r. IsKeyed (rows_of r)) e kept))
      | inr (after, e) ↦ rw (e, sync_each) (subst (λ r. IsKeyed (rows_of r)) e kept)
    ]

-- A run, in whatever configuration and whatever Microsoft answers, leaves at most one subscription for
-- each salesperson and at most one row with each subscription id, if this was so before.
pub ensure_subscriptions-IsKeyed :
    (env : SyncEnv) (now : ℕ) (db : Db) (rows : List GraphSubscription)
    → IsKeyed rows
    → IsKeyed (ensure_subscriptions env now db rows)
unfolding ensure_subscriptions sync_subscriptions
ensure_subscriptions-IsKeyed env now db rows k = keep (not env.graph_enabled) k (
    keep (not env.worker_enabled) k (
      keep env.graph_mock k (
        keep (is_no_mailbox env.ms_shared_mailbox) k
          (sync_each-IsKeyed env now (find_many (is_eligible db) db.salespersons) rows k))))
  where
    keep :
        (b : Bool) {a c : List GraphSubscription}
        → IsKeyed a
        → IsKeyed c
        → IsKeyed (if b then a else c)
    keep true ka kc = ka
    keep false ka kc = kc
