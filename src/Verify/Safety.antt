-- ===== src/Verify/Safety.antt =====
-- About `sendVerification` (apps/api/src/services/booking.service.ts) and the calendar.
use booking_zoom_connect.Prelude.{ℕ, String, Bool, Option, none, some, arith}
use booking_zoom_connect.Store.{Booking, Hold, Tenant}
use booking_zoom_connect.Service.{Env}
use booking_zoom_connect.Service.Keeps.{Keeps, keeps_rules}
use booking_zoom_connect.Schedule.{IsSound, IsTame}
use booking_zoom_connect.Schedule.Rules.{sound_rules}
use booking_zoom_connect.Verify.{
  mark_pending, send_first, send_checked, send_loaded, send_verification,
}

mark_pending-IsTame : (jti : String) → IsTame (mark_pending jti)
mark_pending-IsTame jti b = ground arith

send_loaded-IsSound :
    (env : Env) (now : ℕ) (tenant : Tenant) (key : String) (existing : Bool) (b : Booking)
    (h : Option Hold)
    → Keeps IsSound (send_loaded env now tenant key existing b h)
unfolding send_loaded send_checked send_first
send_loaded-IsSound env now tenant key existing b none = search keeps_rules
send_loaded-IsSound env now tenant key existing b (some h) =
    search (sound_rules, mark_pending-IsTame) depth 20

-- Sending the verification keeps a sound calendar sound, whether it returns or throws.
pub send_verification-IsSound :
    (env : Env) (now : ℕ) (slug : String) (id : ℕ) (key : String)
    → Keeps IsSound (send_verification env now slug id key)
unfolding send_verification
send_verification-IsSound env now slug id key = search (sound_rules, send_loaded-IsSound) depth 20
