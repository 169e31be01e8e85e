-- ===== src/Internal/Reinvite/Laws.antt =====
-- About `reinviteBookingInternal` (apps/api/src/services/booking.service.ts).
use booking_zoom_connect.Prelude.{
  ℕ, String, ◌≡◌, ◌⊎◌, inl, inr, true, false, Option, none, some, ◌∷◌, arith, Option-cases,
}
use booking_zoom_connect.Store.{
  Tenant, Booking, reinvited, graph_patch_failed, find_booking, update_booking,
}
use booking_zoom_connect.Service.{
  Env, World, ok, err, bad_request, ◌>>=◌, transaction, is_blank, find_tenant, modify_booking,
}
use booking_zoom_connect.Reschedule.{
  add_event, set_reinvite, patch_etag, has_patchable, event_id_of,
}
use booking_zoom_connect.Internal.Reinvite.{
  reinvite_done, reinvite_loaded, reinvite_booking_internal,
}

-- For a booking of the tenant with a Graph event that can be patched, Graph being switched on and set up
-- for the tenant: an answer clears the mark that an invitation is owed, stores the etag and records
-- the invitation; an exception sets the mark, records the failure and is thrown on, and what was
-- written stays.
pub reinvite_decides :
    (env : Env) (patched_body : String → Option String) (now : ℕ) (slug : String) (id : ℕ)
    (tenant : Tenant) (b : Booking) (w : World)
    → find_tenant slug w.db ≡ some tenant
    → find_booking id tenant.id w.db.bookings ≡ some b
    → env.graph_enabled ≡ true
    → is_blank tenant.m365_tenant_id ≡ false
    → has_patchable b.graph_event ≡ true
    → ((etag : String) × (patched_body (event_id_of b.graph_event) ≡ some etag)
        × ((reinvite_booking_internal env patched_body now slug id w).0 ≡ ok tt)
        × ((reinvite_booking_internal env patched_body now slug id w).1.db.bookings
            ≡ update_booking b.id
                (set_reinvite false)
                (update_booking b.id (patch_etag etag) w.db.bookings))
        × ((reinvite_booking_internal env patched_body now slug id w).1.db.tracking_events
            ≡ record {
              tenant_id = tenant.id;
              booking_id = b.id;
              type = reinvited;
              occurred_at_utc = now;
            }
              ∷ w.db.tracking_events))
      ⊎ ((patched_body (event_id_of b.graph_event) ≡ none)
          × ((reinvite_booking_internal env patched_body now slug id w).0
              ≡ err (bad_request "Graph body patch failed"))
          × ((reinvite_booking_internal env patched_body now slug id w).1.db.bookings
              ≡ update_booking b.id (set_reinvite true) w.db.bookings)
          × ((reinvite_booking_internal env patched_body now slug id w).1.db.tracking_events
              ≡ record {
                tenant_id = tenant.id;
                booking_id = b.id;
                type = graph_patch_failed;
                occurred_at_utc = now;
              }
                ∷ w.db.tracking_events))
unfolding reinvite_booking_internal reinvite_loaded reinvite_done add_event modify_booking
    transaction ◌>>=◌
reinvite_decides env patched_body now slug id tenant b w known found on set_up fit =
    elim (Option-cases (patched_body (event_id_of b.graph_event))) [
      | inr (etag, answer) ↦ inl (etag, answer, ground arith, ground arith, ground arith)
      | inl failed ↦ inr (failed, ground arith, ground arith, ground arith)
    ]
