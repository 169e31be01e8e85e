-- ===== src/Tests/Calendar.antt =====
-- The promises about the calendar, at concrete requests.
use booking_zoom_connect.Prelude.{find_first, ◌*◌, ◌+◌, refl, List, [], ◌∷◌, inl, inr, arith}
use booking_zoom_connect.Store.{Booking, find_booking}
use booking_zoom_connect.Service.{transaction}
use booking_zoom_connect.Store.{shares_slot}
use booking_zoom_connect.Schedule.{IsSound, NoDoubleBooking}
use booking_zoom_connect.Confirm.{confirm_booking}
use booking_zoom_connect.Confirm.Safety.{confirm_booking-IsSound}
use booking_zoom_connect.CreateHold.{create_hold_public}
use booking_zoom_connect.CreateHold.Safety.{create_hold_public-IsSound}
use booking_zoom_connect.Reschedule.{reschedule_booking, reschedule_tx, in_the_way}
use booking_zoom_connect.Reschedule.Safety.{IsSwept, reschedule_booking-IsSwept}
use booking_zoom_connect.Reschedule.Stale.{stale_double_books}
use booking_zoom_connect.ConfirmById.{by_id_tx}
use booking_zoom_connect.ConfirmById.Rivals.{by_id_double_books}
use booking_zoom_connect.Requests.{
  Request, verify_email, confirm_by_token, cancel_by_token, tick, hold_public, serve_all, disturbed,
}
use booking_zoom_connect.Requests.Safety.{interleaved-IsSound}
use booking_zoom_connect.Tests.Data.{
  day_ms, waiting, booked, stale, three, world_of, env, env-HasFreshIds, three-IsSound, two-IsSwept,
  request,
}

abbrev in_between : List Request
in_between = tick 50 ∷ hold_public 60 "acme" request "hold-5" ∷ []

abbrev requests : List Request
requests =
    hold_public 100 "acme" request "hold-4"
    ∷ verify_email 110 "acme" 1 "mail-1"
    ∷ confirm_by_token 120 130 "acme" "verify" "confirm-1"
    ∷ cancel_by_token 140 "acme" 2 "cancel" "cancel-1"
    ∷ []

interleaved-IsSound_example :
    IsSound (serve_all (disturbed env in_between) requests (world_of three)).db
interleaved-IsSound_example =
    interleaved-IsSound env in_between requests (world_of three) env-HasFreshIds three-IsSound

confirm_booking-IsSound_example :
    IsSound (confirm_booking env 100 200 "acme" "verify" "confirm-1" (world_of three)).1.db
confirm_booking-IsSound_example =
    (confirm_booking-IsSound env 100 200 "acme" "verify" "confirm-1" (λ db s. s)).at
      (world_of three) three-IsSound

create_hold_public-IsSound_example :
    IsSound (create_hold_public env 100 "acme" request "hold-4" (world_of three)).1.db
create_hold_public-IsSound_example =
    (create_hold_public-IsSound env env-HasFreshIds (λ db s. s) 100 "acme" request "hold-4").at
      (world_of three) three-IsSound

reschedule_booking-IsSwept_example :
    IsSwept 100
      (reschedule_booking env 100 "acme" 2 "move" "6" "7" "move-1"
        (world_of (waiting ∷ booked ∷ []))).1.db
reschedule_booking-IsSwept_example =
    (reschedule_booking-IsSwept env 100 "acme" 2 "move" "6" "7" "move-1" (λ db s. s)).at
      (world_of (waiting ∷ booked ∷ [])) two-IsSwept

-- In the way of a move, behind a hold that has run out.
abbrev behind : Booking
behind = record booked { id = 4; start_at_utc = 5 * day_ms; end_at_utc = 5 * day_ms + 500 }

stale_double_books_example :
    ¬ NoDoubleBooking
      (transaction
        (reschedule_tx 100 2 (5 * day_ms) (5 * day_ms + 800))
        (world_of (booked ∷ stale ∷ behind ∷ []))).1.db.bookings
unfolding find_first in_the_way shares_slot
stale_double_books_example =
    stale_double_books 100 2 (5 * day_ms) (5 * day_ms + 800) booked stale behind
      (world_of (booked ∷ stale ∷ behind ∷ [])) refl refl refl refl refl refl (inr (inr (inl refl)))
      (ground arith) refl (ground arith)

by_id_double_books_example :
    ¬ NoDoubleBooking
      (transaction (by_id_tx 100 1 3 "public") (world_of (stale ∷ behind ∷ []))).1.db.bookings
unfolding find_booking find_first
by_id_double_books_example =
    by_id_double_books 100 1 3 "public" stale behind (world_of (stale ∷ behind ∷ [])) refl refl refl
      refl (inr (inl refl)) (ground arith) refl (ground arith)
