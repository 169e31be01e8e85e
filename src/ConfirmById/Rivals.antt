-- ===== src/ConfirmById/Rivals.antt =====
-- About `confirmBookingById` (apps/api/src/services/booking.service.ts) and other bookings in the slot.
use booking_zoom_connect.Prelude.{
  ℕ, String, ◌≡◌, ◌≢◌, true, false, some, List, arith, In, refl, ◌+◌, leb, sym, subst,
  update_many-In, update_many-In_kept,
}
use booking_zoom_connect.Store.{Booking, hold, confirmed, find_booking, update_booking, has_id}
use booking_zoom_connect.Store.Keys.{find_booking-In}
use booking_zoom_connect.Service.{
  World, ok, transaction, ◌>>=◌, drop_hold, clear_public_token, modify_booking,
}
use booking_zoom_connect.Schedule.{Clashes, NoDoubleBooking}
use booking_zoom_connect.Confirm.{mark_confirmed}
use booking_zoom_connect.Confirm.Outcome.{written}
use booking_zoom_connect.ConfirmById.{
  by_id_tx, by_id_found, check_public_token, token_matches, public_token_ttl,
}

written-In :
    (id : ℕ) (bs : List Booking) (b : Booking)
    → In b bs
    → b.id ≡ id
    → In (drop_hold (clear_public_token (mark_confirmed b))) (written id bs)
unfolding update_booking
written-In id bs b m e =
    update_many-In (has_id id) drop_hold _ _
      (update_many-In (has_id id) clear_public_token _ _
        (update_many-In (has_id id) mark_confirmed bs b m (ground arith)) (ground arith))
      (ground arith)

written-In_kept :
    (id : ℕ) (bs : List Booking) (b : Booking) → In b bs → b.id ≢ id → In b (written id bs)
unfolding update_booking
written-In_kept id bs b m ne =
    update_many-In_kept (has_id id) drop_hold _ b
      (update_many-In_kept (has_id id) clear_public_token _ b
        (update_many-In_kept (has_id id) mark_confirmed bs b m (ground arith)) (ground arith))
      (ground arith)

-- A hold of the tenant that carries the token and is younger than fifteen minutes is confirmed,
-- whether or not its hold has run out and whatever else is in the slot.
pub by_id_confirms :
    (now tenant id : ℕ) (token : String) (b : Booking) (w : World)
    → find_booking id tenant w.db.bookings ≡ some b
    → b.status ≡ hold
    → token_matches b.public_confirm_token token ≡ true
    → leb (b.created_at + public_token_ttl) now ≡ false
    → ((transaction (by_id_tx now tenant id token) w).0 ≡ ok (some (mark_confirmed b)))
      × ((transaction (by_id_tx now tenant id token) w).1.db.bookings ≡ written b.id w.db.bookings)
unfolding by_id_tx by_id_found check_public_token modify_booking transaction ◌>>=◌
by_id_confirms now tenant id token b w found held matches young = ground arith

-- Take a hold of the tenant that carries the token and is younger than fifteen minutes. If another row
-- is confirmed and clashes with it, then its confirmation by id leaves a calendar with a double
-- booking.
pub by_id_double_books :
    (now tenant id : ℕ) (token : String) (b o : Booking) (w : World)
    → find_booking id tenant w.db.bookings ≡ some b
    → b.status ≡ hold
    → token_matches b.public_confirm_token token ≡ true
    → leb (b.created_at + public_token_ttl) now ≡ false
    → In o w.db.bookings
    → o.id ≢ b.id
    → o.status ≡ confirmed
    → Clashes b o
    → ¬ NoDoubleBooking (transaction (by_id_tx now tenant id token) w).1.db.bookings
by_id_double_books now tenant id token b o w found held matches young mo ne c clash free =
    let (_, e) = by_id_confirms now tenant id token b w found held matches young in
    subst NoDoubleBooking e free (drop_hold (clear_public_token (mark_confirmed b))) o
      (written-In b.id w.db.bookings b (find_booking-In id tenant _ b found) refl)
      (written-In_kept b.id w.db.bookings o mo ne) (λ s. ne (sym s)) refl c clash
