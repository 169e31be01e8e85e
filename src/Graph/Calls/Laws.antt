-- ===== src/Graph/Calls/Laws.antt =====
-- About the calls of `GraphClient` (apps/api/src/clients/graph.client.ts).
use booking_zoom_connect.Prelude.{
  ℕ, String, ◌≡◌, refl, ◌⊎◌, inl, inr, ◌↔◌, false, Option, none, some, List, [], ◌∷◌, In, arith,
  str_eq, Bool-cases,
}
use booking_zoom_connect.Service.{Slot, text_of}
use booking_zoom_connect.Graph.Client.{
  Client, Remote, ScheduleItem, EventInput, MailInput, SubscriptionInput,
}
use booking_zoom_connect.Graph.Client.Tokens.{IsHonest}
use booking_zoom_connect.Graph.Calls.{
  busy_items, read_moment, get_busy_slots, create_event, update_event_times, update_event_body,
  get_event, delete_event, send_mail, create_subscription, renew_subscription, both_times,
}
use booking_zoom_connect.Graph.Calls.Honors.{
  get_busy_slots-Honors, create_event-Honors, update_event_times-Honors, update_event_body-Honors,
  get_event-Honors, delete_event-Honors, send_mail-Honors, create_subscription-Honors,
  renew_subscription-Honors,
}

-- One call of the client, with its arguments.
pub data GraphCall : Type 0 where
  busy_slots : String → String → ℕ → ℕ → GraphCall
  new_event : String → EventInput → GraphCall
  new_times : String → String → String → ℕ → ℕ → GraphCall
  new_body : String → String → String → String → GraphCall
  details deletion : String → String → String → GraphCall
  mail : String → MailInput → GraphCall
  subscription : String → SubscriptionInput → GraphCall
  renewal : String → String → String → GraphCall

-- The client after the call, whatever the call returned or threw.
unfoldable pub run_call : Remote → ℕ → GraphCall → Client → Client
run_call remote now (busy_slots t u s e) c = (get_busy_slots remote now t u s e c).1
run_call remote now (new_event t i) c = (create_event remote now t i c).1
run_call remote now (new_times t o e s f) c = (update_event_times remote now t o e s f c).1
run_call remote now (new_body t o e x) c = (update_event_body remote now t o e x c).1
run_call remote now (details t o e) c = (get_event remote now t o e c).1
run_call remote now (deletion t o e) c = (delete_event remote now t o e c).1
run_call remote now (mail t i) c = (send_mail remote now t i c).1
run_call remote now (subscription t i) c = (create_subscription remote now t i c).1
run_call remote now (renewal t s x) c = (renew_subscription remote now t s x c).1

-- Calls at instants, one after the other.
unfoldable pub run_calls : Remote → List (ℕ × GraphCall) → Client → Client
run_calls remote [] c = c
run_calls remote ((now, call) ∷ rest) c = run_calls remote rest (run_call remote now call c)

run_call-IsHonest :
    (remote : Remote) (now : ℕ) (call : GraphCall) (c : Client)
    → IsHonest remote c
    → IsHonest remote (run_call remote now call c)
unfolding run_call
run_call-IsHonest remote now (busy_slots t u s e) c h =
    (get_busy_slots-Honors remote now t u s e).at c h
run_call-IsHonest remote now (new_event t i) c h = (create_event-Honors remote now t i).at c h
run_call-IsHonest remote now (new_times t o e s f) c h =
    (update_event_times-Honors remote now t o e s f).at c h
run_call-IsHonest remote now (new_body t o e x) c h =
    (update_event_body-Honors remote now t o e x).at c h
run_call-IsHonest remote now (details t o e) c h = (get_event-Honors remote now t o e).at c h
run_call-IsHonest remote now (deletion t o e) c h = (delete_event-Honors remote now t o e).at c h
run_call-IsHonest remote now (mail t i) c h = (send_mail-Honors remote now t i).at c h
run_call-IsHonest remote now (subscription t i) c h =
    (create_subscription-Honors remote now t i).at c h
run_call-IsHonest remote now (renewal t s x) c h =
    (renew_subscription-Honors remote now t s x).at c h

-- Whatever calls the client makes at whatever instants, its cached tokens stay their tenants', each
-- with the time until which it was given, and every request that it sent carries a token that
-- Microsoft gave to the request's tenant, if this was so before the calls.
pub run_calls-IsHonest :
    (remote : Remote) (calls : List (ℕ × GraphCall)) (c : Client)
    → IsHonest remote c
    → IsHonest remote (run_calls remote calls c)
unfolding run_calls
run_calls-IsHonest remote [] c h = h
run_calls-IsHonest remote ((now, call) ∷ rest) c h =
    run_calls-IsHonest remote rest _ (run_call-IsHonest remote now call c h)

-- The item blocks the slot: its status is not "free", and its two times are read as the slot's.
abbrev pub Blocks : Remote → ScheduleItem → Slot → Type 0
Blocks remote it s =
    (str_eq (remote.to_lower (text_of it.status)) "free" ≡ false)
    × (read_moment remote it.start ≡ some s.start_at_utc)
    × (read_moment remote it.end ≡ some s.end_at_utc)

In-both_times :
    (a b : Option ℕ) (rest : List Slot) (s : Slot)
    → In s (both_times a b rest)
      ↔ (((a ≡ some s.start_at_utc) × (b ≡ some s.end_at_utc)) ⊎ In s rest)
In-both_times none none rest s = ground arith
In-both_times none (some y) rest s = ground arith
In-both_times (some x) none rest s = ground arith
In-both_times (some x) (some y) rest s = ground arith

-- The busy times that are read out of a schedule are exactly those of its items that are not free and
-- have two times that can be read.
pub busy_items_exact :
    (remote : Remote) (items : List ScheduleItem) (s : Slot)
    → In s (busy_items remote items) ↔ ((it : ScheduleItem) × In it items × Blocks remote it s)
unfolding busy_items
busy_items_exact remote [] s = (λ m. absurd m, λ (it, m, b). absurd m)
busy_items_exact remote (x ∷ items) s = (
  λ m. elim (Bool-cases (str_eq (remote.to_lower (text_of x.status)) "free")) [
    | inl free ↦
        (let (it, mi, b) = (busy_items_exact remote items s).0 (ground arith) in (it, inr mi, b))
    | inr busy ↦ elim (both.0 (ground arith)) [
      | inl (a, b) ↦ (x, inl refl, (busy, a, b))
      | inr later ↦ (let (it, mi, b) = (busy_items_exact remote items s).0 later in (it, inr mi, b))
    ]
  ],
  λ (it, m, (busy, a, b)). elim m [
    | inl here ↦ ground (arith, both.1)
    | inr later ↦
        (let rest = (busy_items_exact remote items s).1 (it, later, (busy, a, b)) in
          ground (arith, both.1))
  ],
)
  where
    both :
        In s (
          both_times
            (read_moment remote x.start)
            (read_moment remote x.end)
            (busy_items remote items))
        ↔ (((read_moment remote x.start ≡ some s.start_at_utc)
              × (read_moment remote x.end ≡ some s.end_at_utc))
            ⊎ In s (busy_items remote items))
    both = In-both_times _ _ _ s
