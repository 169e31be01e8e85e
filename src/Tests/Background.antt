-- ===== src/Tests/Background.antt =====
-- The limiter, the queue, the jobs and the notes, at concrete inputs.
use booking_zoom_connect.Prelude.{
  String, refl, ◌≡◌, none, some, [], ◌∷◌, inl, inr, ◌⊎◌, true, false, arith, In, ◌≤◌, codes, Option,
  find_many, find_first, update_many,
}
use booking_zoom_connect.RateLimit.{Key, holds, verify, get}
use booking_zoom_connect.RateLimit.Bounds.{passes, window_bound}
use booking_zoom_connect.Jobs.Webhook.{WebhookJob, pending, failed}
use booking_zoom_connect.Jobs.Webhook.Laws.{IsBounded, retried, webhook_gives_up}
use booking_zoom_connect.Jobs.Compensation.{
  process_job as compensate, process_each, is_ready, CompensationJob, tick,
}
use booking_zoom_connect.Jobs.Compensation.Laws.{tick-IsBounded, IsBounded as IsBoundedJob}
use booking_zoom_connect.Store.{Booking, update_booking, shares_slot}
use booking_zoom_connect.Service.{Slot, err, plain_error, unique_violation}
use booking_zoom_connect.Reconcile.{
  deleted, updated, handle_webhook_job, cancel_by_sales, move_by_sales,
}
use booking_zoom_connect.Reconcile.Safety.{reconcile_decides}
use booking_zoom_connect.Tests.Data.{booked, acme, waiting, world_of}

abbrev key : Key
key = record { tenant_slug = codes "acme"; kind = holds; ip = "::1" }

abbrev other_key : Key
other_key = record key { kind = verify }

-- Three requests and one with another key; two may pass.
window_bound_example :
    passes 60_000 2 key ((key, 0) ∷ (key, 10) ∷ (other_key, 20) ∷ (key, 30) ∷ []) [] ≤ 2
unfolding get
window_bound_example =
    window_bound 60_000 2 0 key ((key, 10) ∷ (other_key, 20) ∷ (key, 30) ∷ []) [] tt
      (ground arith, (ground arith, (ground arith, tt)))

abbrev job : WebhookJob
job = record {
  id = 1;
  status = pending;
  attempts = 3;
  next_run_at_utc = 100;
  processing_started_at_utc = none;
  last_error = none;
}

job-IsBounded : IsBounded job
job-IsBounded = record {
  at_most = ground arith;
  pending_left = λ _. ground arith;
  never_left_over = λ e. ground arith;
}

webhook_gives_up_example : (retried "timeout" 2 job).status ≡ failed
webhook_gives_up_example = webhook_gives_up "timeout" 1 job refl refl

abbrev refund : CompensationJob
refund = record {
  id = 1;
  status = pending;
  reason = "graph_failed_after_zoom";
  meeting_id = some "meeting";
  attempts = 8;
  next_run_at = none;
  last_error = none;
}

abbrev zoom_down : String → Option String
zoom_down id = some "zoom is down"

refund-IsBounded : (j : CompensationJob) → In j (refund ∷ []) → IsBoundedJob j
refund-IsBounded j (inl e) = record {
  at_most = ground arith;
  pending_left = λ _. ground arith;
  never_left_over = λ n. ground arith;
}
refund-IsBounded j (inr m) = absurd m

tick-IsBounded_example : IsBoundedJob (compensate 100 7 zoom_down refund)
unfolding tick process_each is_ready find_many update_many
tick-IsBounded_example =
    tick-IsBounded 100 7 zoom_down (λ l. l) (refund ∷ []) refund-IsBounded
      (compensate 100 7 zoom_down refund) (inl refl)

abbrev with_graph_event : Booking
with_graph_event = record booked {
  graph_event = some (record { organizer_user_id = "sato"; event_id = "event"; etag = "1" });
}

abbrev later : Slot
later = record { start_at_utc = 500; end_at_utc = 600 }

reconcile_decides_example :
    ((handle_webhook_job 100
        (some later)
        "event"
        deleted
        (world_of (waiting ∷ with_graph_event ∷ []))).1.db.bookings
      ≡ update_booking 2 cancel_by_sales (waiting ∷ with_graph_event ∷ []))
    × (((o : Booking) × In o (waiting ∷ with_graph_event ∷ [])
          × (shares_slot (move_by_sales later with_graph_event) o ≡ true)
          × (handle_webhook_job 100
                (some later)
                "event"
                updated
                (world_of (waiting ∷ with_graph_event ∷ []))
              ≡ (err unique_violation, world_of (waiting ∷ with_graph_event ∷ []))))
        ⊎ (((o : Booking)
              → In o (waiting ∷ with_graph_event ∷ [])
              → shares_slot (move_by_sales later with_graph_event) o ≡ false)
            × ((handle_webhook_job 100
                  (some later)
                  "event"
                  updated
                  (world_of (waiting ∷ with_graph_event ∷ []))).1.db.bookings
                ≡ update_booking 2 (move_by_sales later) (waiting ∷ with_graph_event ∷ []))))
    × (handle_webhook_job 100 none "event" updated (world_of (waiting ∷ with_graph_event ∷ []))
        ≡ (err (plain_error "graph event not read"), world_of (waiting ∷ with_graph_event ∷ [])))
unfolding find_first
reconcile_decides_example =
    reconcile_decides 100 later "event" with_graph_event acme
      (world_of (waiting ∷ with_graph_event ∷ [])) refl refl refl
