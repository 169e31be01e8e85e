-- ===== src/Public/Links.antt =====
-- `buildCustomerActionLinks` and `buildCustomerLinksInternal` of
-- apps/api/src/services/booking.service.ts. The URL class is a parameter.
pub mod Laws
use booking_zoom_connect.Prelude.{ℕ, String, Option, ◌/◌}
use booking_zoom_connect.Store.{find_booking}
use booking_zoom_connect.Service.{
  Action, Env, TokenPayload, TokenPurpose, cancel, reschedule, not_found, pure, gets, or_raise,
  ◌>>=◌, ◌>>◌, find_tenant,
}

pub record Site : Type 0 where
  -- `buildCancelUrl` and `buildRescheduleUrl`, of the slug, the booking and the token.
  pub cancel_url : String → ℕ → String → String
  pub reschedule_url : String → ℕ → String → String
  -- The text of a token's id, of its purpose, the booking and the instant.
  pub link_jti : TokenPurpose → ℕ → ℕ → String

pub record Links : Type 0 where
  pub cancel_url : String
  pub reschedule_url : String

-- The payload of a link's token: it runs out when the booking starts, in whole seconds.
abbrev pub link_payload : Site → TokenPurpose → ℕ → ℕ → ℕ → ℕ → TokenPayload
link_payload site purpose now booking tenant start = record {
  exp = start / 1000;
  jti = site.link_jti purpose booking now;
  tenant_id = tenant;
  booking_id = booking;
  purpose = purpose;
}

-- `issueToken`
abbrev pub link_token : Env → Site → TokenPurpose → ℕ → ℕ → ℕ → ℕ → String
link_token env site purpose now booking tenant start =
    env.sign (link_payload site purpose now booking tenant start)

abbrev pub customer_action_links : Env → Site → ℕ → String → ℕ → ℕ → ℕ → Links
customer_action_links env site now slug booking tenant start = record {
  cancel_url = site.cancel_url slug booking (link_token env site cancel now booking tenant start);
  reschedule_url =
      site.reschedule_url slug booking (link_token env site reschedule now booking tenant start);
}

-- `buildCustomerLinksInternal`; the booking's id is the one that was asked for.
unfoldable pub customer_links_internal : Env → Site → ℕ → String → ℕ → Action (ℕ × Links)
customer_links_internal env site now slug id = do
  tenant ← or_raise (← gets (find_tenant slug)) (not_found "Tenant not found")
  b ←
      or_raise (← gets (λ db. find_booking id tenant.id db.bookings))
        (not_found "Booking not found")
  pure (b.id, customer_action_links env site now slug b.id tenant.id b.start_at_utc)
