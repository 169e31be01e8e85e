-- ===== src/Requests/Safety.antt =====
-- About sequences of requests (apps/api/src/services/booking.service.ts) and the calendar.
use booking_zoom_connect.Prelude.{List, [], ◌∷◌}
use booking_zoom_connect.Store.{Db}
use booking_zoom_connect.Service.{Env, World}
use booking_zoom_connect.Schedule.{IsSound}
use booking_zoom_connect.Hold.Safety.{HasFreshIds}
use booking_zoom_connect.CreateHold.Safety.{create_hold_public-IsSound}
use booking_zoom_connect.Verify.Safety.{send_verification-IsSound}
use booking_zoom_connect.Confirm.Safety.{confirm_booking-IsSound}
use booking_zoom_connect.Cancel.Safety.{cancel_booking-IsSound}
use booking_zoom_connect.Expiry.Laws.{expire_holds-IsSound}
use booking_zoom_connect.Requests.{
  Request, hold_public, verify_email, confirm_by_token, cancel_by_token, tick, serve, serve_all,
  quiet, disturbed,
}

module _ (env : Env) (fresh : HasFreshIds env)
    (others : (db : Db) → IsSound db → IsSound (env.others db)) where
  serve-IsSound : (r : Request) (w : World) → IsSound w.db → IsSound (serve env r w).db
  unfolding serve
  serve-IsSound (hold_public now slug r key) w s =
      (create_hold_public-IsSound env fresh others now slug r key).at w s
  serve-IsSound (verify_email now slug id key) w s =
      (send_verification-IsSound env now slug id key).at w s
  serve-IsSound (confirm_by_token now in_tx slug token key) w s =
      (confirm_booking-IsSound env now in_tx slug token key others).at w s
  serve-IsSound (cancel_by_token now slug id token key) w s =
      (cancel_booking-IsSound env now slug id token key).at w s
  serve-IsSound (tick now) w s = (expire_holds-IsSound now).at w s

  serve_all-IsSound :
      (rs : List Request) (w : World) → IsSound w.db → IsSound (serve_all env rs w).db
  unfolding serve_all
  serve_all-IsSound [] w s = s
  serve_all-IsSound (r ∷ rs) w s = serve_all-IsSound rs (serve env r w) (serve-IsSound r w s)

-- If the database gives new ids, then after any sequence of holds, verifications, confirmations by
-- token, cancellations and sweeps, where another such sequence, itself undisturbed, is served between
-- the first reads and the transaction of each hold and each confirmation, no two confirmed bookings of
-- a salesperson overlap and no two rows share an id, given that this was so before.
pub interleaved-IsSound :
    (env : Env) (others rs : List Request) (w : World)
    → HasFreshIds env
    → IsSound w.db
    → IsSound (serve_all (disturbed env others) rs w).db
unfolding disturbed
interleaved-IsSound env others rs w fresh s =
    serve_all-IsSound (disturbed env others) fresh
      (λ db sound. serve_all-IsSound (quiet env) fresh (λ _ h. h) others _ sound) rs w s
