-- ===== src/Cancel/Outcome.antt =====
-- About `cancelBooking` (apps/api/src/services/booking.service.ts): its answers and writes.
use booking_zoom_connect.Prelude.{
  ℕ, String, ◌≡◌, ◌⊎◌, inl, inr, true, false, some, arith, Option-cases,
}
use booking_zoom_connect.Store.{Booking, Tenant, confirmed, canceled, update_booking, find_booking}
use booking_zoom_connect.Service.{
  Env, World, TokenPayload, cancel, valid, ok, ◌>>=◌, drop_hold, find_tenant, is_empty,
  modify_booking, find_salesperson, check_idempotency, verify_token_or_raise, invalidate_for_start,
}
use booking_zoom_connect.Schedule.Rules.{bookings-record_idempotency, check-record_idempotency}
use booking_zoom_connect.Cancel.{
  cancel_booking, cancel_new, cancel_confirmed, cancel_again, mark_canceled, deadline_passed,
  delete_graph_event, delete_zoom_meeting, timezone_of,
}

-- The cancelled row, and the rest of the bookings as before.
cancel_confirmed_db :
    (env : Env) (t : Tenant) (b : Booking) (tz key : String) (w : World)
    → ((cancel_confirmed env t b tz key w).0 ≡ ok "canceled")
      × ((cancel_confirmed env t b tz key w).1.db.bookings
          ≡ update_booking b.id drop_hold (update_booking b.id mark_canceled w.db.bookings))
      × (check_idempotency t.id "cancel" key (cancel_confirmed env t b tz key w).1.db ≡ true)
unfolding cancel_confirmed delete_graph_event delete_zoom_meeting modify_booking
    invalidate_for_start ◌>>=◌
cancel_confirmed_db env t b tz key w = elim (Option-cases b.graph_event) [
  | inl e ↦ elim (Option-cases b.meeting) [
    | inl m ↦ grind (arith, bookings-record_idempotency, check-record_idempotency)
    | inr (y, m) ↦ grind (arith, bookings-record_idempotency, check-record_idempotency)
  ]
  | inr (x, e) ↦ elim (Option-cases b.meeting) [
    | inl m ↦ grind (arith, bookings-record_idempotency, check-record_idempotency)
    | inr (y, m) ↦ grind (arith, bookings-record_idempotency, check-record_idempotency)
  ]
]

-- A confirmed booking, with a cancel token of its own, a new key and a day or more to go, is
-- cancelled: the row becomes `canceled`, its hold goes, no other row changes, and the key is taken.
pub cancel_cancels :
    (env : Env) (now : ℕ) (slug : String) (id : ℕ) (token key : String) (t : Tenant) (b : Booking)
    (p : TokenPayload) (w : World)
    → is_empty key ≡ false
    → is_empty token ≡ false
    → find_tenant slug w.db ≡ some t
    → find_booking id t.id w.db.bookings ≡ some b
    → b.status ≡ confirmed
    → check_idempotency t.id "cancel" key w.db ≡ false
    → env.check_token now token ≡ valid p
    → p.purpose ≡ cancel
    → p.booking_id ≡ b.id
    → p.tenant_id ≡ t.id
    → deadline_passed now b ≡ false
    → ((cancel_booking env now slug id token key w).0 ≡ ok "canceled")
      × ((cancel_booking env now slug id token key w).1.db.bookings
          ≡ update_booking b.id drop_hold (update_booking b.id mark_canceled w.db.bookings))
      × (check_idempotency t.id "cancel" key (cancel_booking env now slug id token key w).1.db
          ≡ true)
unfolding cancel_booking cancel_new verify_token_or_raise ◌>>=◌
cancel_cancels env now slug id token key t b p w hk ht tenant found c fresh tok pur own ten dl =
    ground (
      arith,
      cancel_confirmed_db env t b (timezone_of (find_salesperson b.salesperson_id w.db)) key w,
    )

-- A key that was used, or a booking that is cancelled already: the answer is the same, whatever the
-- token, and of the bookings only the hold of this one can change.
pub cancel_replays :
    (env : Env) (now : ℕ) (slug : String) (id : ℕ) (token key : String) (t : Tenant) (b : Booking)
    (w : World)
    → is_empty key ≡ false
    → find_tenant slug w.db ≡ some t
    → find_booking id t.id w.db.bookings ≡ some b
    → (b.status ≡ canceled) ⊎ (check_idempotency t.id "cancel" key w.db ≡ true)
    → ((cancel_booking env now slug id token key w).0 ≡ ok "canceled")
      × ((cancel_booking env now slug id token key w).1.db.bookings
          ≡ update_booking b.id drop_hold w.db.bookings)
unfolding cancel_booking cancel_again modify_booking invalidate_for_start ◌>>=◌
cancel_replays env now slug id token key t b w hk tenant found again = ground arith
