-- ===== src/Internal/Access.antt =====
-- `assertAdminApiKey` (apps/api/src/internal.controller.ts) and the endpoint for attendance with
-- `recordAttendance` (apps/api/src/services/booking.service.ts).
use booking_zoom_connect.Prelude.{
  ℕ, String, ⊤, not, ◌||◌, Option, none, some, str_eq, if◌then◌else◌,
}
use booking_zoom_connect.Store.{EventType, find_booking}
use booking_zoom_connect.Service.{
  Result, ok, err, unauthorized, bad_request, not_found, Action, lift, gets, or_raise, ◌>>=◌, ◌>>◌,
  is_blank, is_empty, text_of,
}
use booking_zoom_connect.Reschedule.{add_event}

-- The configured key, then the key of the request.
unfoldable pub assert_admin_api_key : String → Option String → Result ⊤
assert_admin_api_key configured given =
    if is_empty configured || str_eq configured "change-me"
    then err (unauthorized "Admin API key is not configured")
    else if is_blank given || not (str_eq (text_of given) configured)
    then err (unauthorized "Invalid API key")
    else ok tt

-- `recordAttendance`
unfoldable pub record_attendance : ℕ → ℕ → ℕ → EventType → Action ⊤
record_attendance now booking tenant status = do
  or_raise (← gets (λ db. find_booking booking tenant db.bookings)) (not_found "Booking not found")
  add_event tenant booking status now

abbrev pub attendance_of : ℕ → ℕ → Option ℕ → EventType → Action ⊤
attendance_of now booking none status = lift (err (bad_request "X-Tenant-Id required"))
attendance_of now booking (some tenant) status = record_attendance now booking tenant status

-- `attendance`
unfoldable pub attendance : String → Option String → ℕ → ℕ → Option ℕ → EventType → Action ⊤
attendance configured given now booking tenant status = do
  lift (assert_admin_api_key configured given)
  attendance_of now booking tenant status
