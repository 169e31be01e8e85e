-- ===== src/Public/Endpoints.antt =====
-- The methods ending in `Public` of apps/api/src/services/booking.service.ts.
use booking_zoom_connect.Prelude.{ℕ, String, Bool, Option, none, some, if◌then◌else◌}
use booking_zoom_connect.Store.{Booking}
use booking_zoom_connect.Service.{
  Action, Env, not_found, pure, or_raise, ◌>>=◌, ◌>>◌, public_tenant_or_raise,
}
use booking_zoom_connect.Verify.{Sent, send_verification}
use booking_zoom_connect.Confirm.{confirm_booking}
use booking_zoom_connect.ConfirmById.{confirm_booking_by_id}
use booking_zoom_connect.Cancel.{cancel_booking}
use booking_zoom_connect.Reschedule.{Rescheduled, reschedule_booking}
use booking_zoom_connect.Public.Links.{Site, Links, customer_action_links}

-- The answer, with the token if the configuration says so.
abbrev pub public_sent : Bool → Sent → String × Option String
public_sent return_token s = (s.status, if return_token then some s.token else none)

unfoldable pub send_verification_public :
    Env → Bool → ℕ → String → ℕ → String → Action (String × Option String)
send_verification_public env return_token now slug id key = do
  public_tenant_or_raise slug
  s ← send_verification env now slug id key
  pure (public_sent return_token s)

pub record PublicConfirm : Type 0 where
  pub status : String
  pub booking_id : ℕ
  pub links : Links

unfoldable pub confirm_booking_public :
    Env → Site → ℕ → ℕ → String → String → String → Action PublicConfirm
confirm_booking_public env site now now_in_tx slug token key = do
  tenant ← public_tenant_or_raise slug
  b ← or_raise (← confirm_booking env now now_in_tx slug token key) (not_found "Booking not found")
  pure (record {
    status = "confirmed";
    booking_id = b.id;
    links = customer_action_links env site now slug b.id tenant.id b.start_at_utc;
  })

unfoldable pub confirm_booking_public_by_id :
    Env → ℕ → ℕ → String → ℕ → String → String → Action (String × Booking)
confirm_booking_public_by_id env now now_in_tx slug id token key = do
  public_tenant_or_raise slug
  b ←
      or_raise (← confirm_booking_by_id env now now_in_tx slug id token key)
        (not_found "Booking not found")
  pure ("ok", b)

unfoldable pub cancel_booking_public : Env → ℕ → String → ℕ → String → String → Action String
cancel_booking_public env now slug id token key = do
  public_tenant_or_raise slug
  cancel_booking env now slug id token key

unfoldable pub reschedule_booking_public :
    Env → ℕ → String → ℕ → String → String → String → String → Action Rescheduled
reschedule_booking_public env now slug id token new_start new_end key = do
  public_tenant_or_raise slug
  reschedule_booking env now slug id token new_start new_end key
