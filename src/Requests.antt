-- ===== src/Requests.antt =====
-- Sequences of requests to BookingService, one after the other or with further requests committed
-- between the first reads of a method and its transaction. The methods are those that promise a
-- sound calendar: confirmBookingById and rescheduleBooking promise it only under conditions.
pub mod Safety
use booking_zoom_connect.Prelude.{ℕ, String, List, [], ◌∷◌}
use booking_zoom_connect.Store.{Db}
use booking_zoom_connect.Service.{Env, Result, World}
use booking_zoom_connect.Hold.{HoldRequest}
use booking_zoom_connect.CreateHold.{create_hold_public}
use booking_zoom_connect.Verify.{send_verification}
use booking_zoom_connect.Confirm.{confirm_booking}
use booking_zoom_connect.Cancel.{cancel_booking}
use booking_zoom_connect.Expiry.{expire_holds}

-- A request with the instants of its reads.
pub data Request : Type 0 where
  hold_public : ℕ → String → HoldRequest → String → Request
  verify_email : ℕ → String → ℕ → String → Request
  confirm_by_token : ℕ → ℕ → String → String → String → Request
  cancel_by_token : ℕ → String → ℕ → String → String → Request
  tick : ℕ → Request

abbrev after : {A : Type 0} → Result A × World → World
after (r, w) = w

-- The state after a request, whatever it answers.
unfoldable pub serve : Env → Request → World → World
serve env (hold_public now slug r key) w = after (create_hold_public env now slug r key w)
serve env (verify_email now slug id key) w = after (send_verification env now slug id key w)
serve env (confirm_by_token now in_tx slug token key) w =
    after (confirm_booking env now in_tx slug token key w)
serve env (cancel_by_token now slug id token key) w =
    after (cancel_booking env now slug id token key w)
serve env (tick now) w = after (expire_holds now w)

unfoldable pub serve_all : Env → List Request → World → World
serve_all env [] w = w
serve_all env (r ∷ rs) w = serve_all env rs (serve env r w)

abbrev pub quiet : Env → Env
quiet env = record env { others = λ db. db }

-- While a method runs, these requests are served between its first reads and its transaction.
unfoldable pub disturbed : Env → List Request → Env
disturbed env others = record env {
  others = λ db.
      (serve_all (quiet env) others (record { db = db; availability_cache = []; calls = [] })).db;
}
