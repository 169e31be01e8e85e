-- ===== src/Reschedule/Stale.antt =====
-- About the conflict query of `rescheduleBooking` (apps/api/src/services/booking.service.ts) and
-- holds that have run out.
use booking_zoom_connect.Prelude.{
  ℕ, ◌≡◌, ◌≢◌, false, none, some, arith, In, sym, subst, find_first, find_first-In, update_many-In,
  update_many-In_kept,
}
use booking_zoom_connect.Store.{Booking, confirmed, update_booking, has_id, shares_slot}
use booking_zoom_connect.Service.{World, ok, transaction, ◌>>=◌, modify_booking, modify_slot}
use booking_zoom_connect.Schedule.{Clashes, NoDoubleBooking}
use booking_zoom_connect.Reschedule.{
  reschedule_tx, move_latest, in_the_way, blocks, move_to, same_slot, rescheduled_to, add_event,
}

-- A confirmed booking moves whenever the first row that the conflict query returns is a hold that
-- has run out, and no other active row has the very slot.
pub stale_moves :
    (now id start end : ℕ) (b x : Booking) (w : World)
    → find_first (has_id id) w.db.bookings ≡ some b
    → b.status ≡ confirmed
    → same_slot start end b ≡ false
    → find_first (in_the_way start end b) w.db.bookings ≡ some x
    → blocks now (some x) ≡ false
    → find_first (shares_slot (move_to start end b)) w.db.bookings ≡ none
    → ((transaction (reschedule_tx now id start end) w).0 ≡ ok (rescheduled_to b start end))
      × ((transaction (reschedule_tx now id start end) w).1.db.bookings
          ≡ update_booking b.id (move_to start end) w.db.bookings)
unfolding reschedule_tx move_latest add_event modify_slot modify_booking transaction ◌>>=◌
stale_moves now id start end b x w found c moved first free alone = ground arith

-- Take a confirmed booking and another slot for which the first row that the conflict query returns is
-- a hold that has run out, where no other active row has exactly that slot. If another confirmed booking clashes with the booking once it has the new
-- slot, then the transaction leaves a calendar with a double booking.
pub stale_double_books :
    (now id start end : ℕ) (b x o : Booking) (w : World)
    → find_first (has_id id) w.db.bookings ≡ some b
    → b.status ≡ confirmed
    → same_slot start end b ≡ false
    → find_first (in_the_way start end b) w.db.bookings ≡ some x
    → blocks now (some x) ≡ false
    → find_first (shares_slot (move_to start end b)) w.db.bookings ≡ none
    → In o w.db.bookings
    → o.id ≢ b.id
    → o.status ≡ confirmed
    → Clashes (move_to start end b) o
    → ¬ NoDoubleBooking (transaction (reschedule_tx now id start end) w).1.db.bookings
unfolding update_booking
stale_double_books now id start end b x o w found c moved first free alone mo ne co clash d =
    let (_, e) = stale_moves now id start end b x w found c moved first free alone in
    subst NoDoubleBooking e d (move_to start end b) o
      (update_many-In (has_id b.id) (move_to start end) w.db.bookings b (find_first-In _ _ b found)
        (ground arith))
      (update_many-In_kept (has_id b.id) (move_to start end) w.db.bookings o mo (ground arith))
      (λ s. ne (sym s)) c co clash
