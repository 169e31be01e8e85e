-- ===== src/Cancel/Safety.antt =====
-- About `cancelBooking` (apps/api/src/services/booking.service.ts) and the calendar.
use booking_zoom_connect.Prelude.{ℕ, String, Option, none, some, arith}
use booking_zoom_connect.Store.{Booking, GraphEvent, Meeting}
use booking_zoom_connect.Service.{Env}
use booking_zoom_connect.Service.Keeps.{Keeps, keeps_rules}
use booking_zoom_connect.Schedule.{IsSound, IsTame}
use booking_zoom_connect.Schedule.Rules.{sound_rules}
use booking_zoom_connect.Cancel.{
  mark_canceled, delete_graph_event, delete_zoom_meeting, cancel_again, cancel_confirmed,
  cancel_new, cancel_booking,
}

mark_canceled-IsTame : IsTame mark_canceled
mark_canceled-IsTame b = ground arith

delete_graph_event-IsSound :
    (b : Booking) (e : Option GraphEvent) → Keeps IsSound (delete_graph_event b e)
unfolding delete_graph_event
delete_graph_event-IsSound b none = search keeps_rules
delete_graph_event-IsSound b (some e) = search keeps_rules

delete_zoom_meeting-IsSound :
    (b : Booking) (m : Option Meeting) → Keeps IsSound (delete_zoom_meeting b m)
unfolding delete_zoom_meeting
delete_zoom_meeting-IsSound b none = search keeps_rules
delete_zoom_meeting-IsSound b (some m) = search keeps_rules

-- Cancelling keeps a sound calendar sound, whether it returns or throws.
pub cancel_booking-IsSound :
    (env : Env) (now : ℕ) (slug : String) (id : ℕ) (token key : String)
    → Keeps IsSound (cancel_booking env now slug id token key)
unfolding cancel_booking cancel_new cancel_confirmed cancel_again
cancel_booking-IsSound env now slug id token key =
    search
      (sound_rules, mark_canceled-IsTame, delete_graph_event-IsSound, delete_zoom_meeting-IsSound)
      depth 40
