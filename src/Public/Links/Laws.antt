-- ===== src/Public/Links/Laws.antt =====
-- About the customer's links and `cancelBooking` (apps/api/src/services/booking.service.ts).
use booking_zoom_connect.Prelude.{ℕ, String, ◌≡◌, refl, true, false, some, ◌<◌, ◌*◌, ◌/◌, arith}
use booking_zoom_connect.Store.{Tenant, Booking, confirmed, find_booking, update_booking}
use booking_zoom_connect.Service.{
  Env, World, TokenPayload, valid, ok, cancel, is_empty, find_tenant, check_idempotency, drop_hold,
}
use booking_zoom_connect.Cancel.{cancel_booking, mark_canceled, deadline_passed}
use booking_zoom_connect.Cancel.Outcome.{cancel_cancels}
use booking_zoom_connect.Public.Links.{Site, link_payload, link_token}

-- What jsonwebtoken promises of a payload: its token is not empty, and is read back until it runs out.
pub record Verifies (env : Env) (p : TokenPayload) : Type 0 where
  pub some_text : is_empty (env.sign p) ≡ false
  pub reads_back : (now : ℕ) → now < p.exp * 1000 → env.check_token now (env.sign p) ≡ valid p

before_exp :
    (b : Booking) (now : ℕ) → deadline_passed now b ≡ false → now < b.start_at_utc / 1000 * 1000
before_exp b now h = ground arith

-- The token of a customer's cancel link, whenever the link was made, cancels the booking: given with a
-- new idempotency key before the deadline, for a confirmed booking of the tenant, the answer is
-- "canceled", the row is marked and its hold dropped, and the key is recorded.
pub link_cancels :
    (env : Env) (site : Site) (made later : ℕ) (slug : String) (id : ℕ) (key : String) (t : Tenant)
    (b : Booking) (w : World)
    → Verifies env (link_payload site cancel made b.id t.id b.start_at_utc)
    → is_empty key ≡ false
    → find_tenant slug w.db ≡ some t
    → find_booking id t.id w.db.bookings ≡ some b
    → b.status ≡ confirmed
    → check_idempotency t.id "cancel" key w.db ≡ false
    → deadline_passed later b ≡ false
    → ((cancel_booking env later slug id
          (link_token env site cancel made b.id t.id b.start_at_utc)
          key
          w).0
        ≡ ok "canceled")
      × ((cancel_booking env later slug id
            (link_token env site cancel made b.id t.id b.start_at_utc)
            key
            w).1.db.bookings
          ≡ update_booking b.id drop_hold (update_booking b.id mark_canceled w.db.bookings))
      × (check_idempotency t.id "cancel" key
            (cancel_booking env later slug id
              (link_token env site cancel made b.id t.id b.start_at_utc)
              key
              w).1.db
          ≡ true)
link_cancels env site made later slug id key t b w jwt hk known found c fresh dl =
    let p = link_payload site cancel made b.id t.id b.start_at_utc in
    cancel_cancels env later slug id (env.sign p) key t b p w hk jwt.some_text known found c fresh
      (jwt.reads_back later (before_exp b later dl)) refl refl refl dl
