-- ===== src/Internal/Resend.antt =====
-- `resendConfirmationEmails` (apps/api/src/services/booking.service.ts), which tries the mails that are
-- still owed.
pub mod Laws
use booking_zoom_connect.Prelude.{
  ℕ, suc, String, ⊤, Bool, true, false, ◌&&◌, Option, none, some, List, [], ◌∷◌, ◌==◌, min, max,
  if◌then◌else◌, find_many, take,
}
use booking_zoom_connect.Store.{Db, Tenant, Booking, confirmed, status_eq}
use booking_zoom_connect.Service.{
  Action, Env, not_found, pure, gets, or_raise, ◌>>=◌, ◌>>◌, find_tenant, find_salesperson,
  find_customer, is_some,
}
use booking_zoom_connect.Service.PostConfirm.{send_confirmation_email}
use booking_zoom_connect.Internal.Listing.{
  Limit, missing_limit, nan, infinite, negative, natural, Sorting,
}

-- `Math.max(1, Math.min(500, Math.floor(limit || 50)))`
unfoldable pub resend_limit : Limit → ℕ
resend_limit missing_limit = 50
resend_limit nan = 50
resend_limit infinite = 500
resend_limit (negative n) = 1
resend_limit (natural n) = if n == 0 then 50 else max 1 (min 500 n)

abbrev pub is_owed : ℕ → Booking → Bool
is_owed tenant b =
    b.tenant_id == tenant && status_eq b.status confirmed && b.customer_notify_required

unfoldable pub owed_rows : Sorting → ℕ → ℕ → Db → List Booking
owed_rows sorting tenant limit db =
    take limit (sorting.by_start (find_many (is_owed tenant) db.bookings))

-- `!booking.customer || !booking.salesperson`
abbrev pub has_relations : Booking → Db → Bool
has_relations b db =
    is_some (find_customer b.customer_id db) && is_some (find_salesperson b.salesperson_id db)

-- The loop; the result is `processed`.
unfoldable pub resend_each : Env → Tenant → List Booking → Action ℕ
resend_each env tenant [] = pure 0
resend_each env tenant (b ∷ bs) = do
  complete ← gets (has_relations b)
  if complete
      then (do
        send_confirmation_email env tenant b
        processed ← resend_each env tenant bs
        pure (suc processed))
      else resend_each env tenant bs

unfoldable pub resend_confirmation_emails : Env → Sorting → String → Limit → Action ℕ
resend_confirmation_emails env sorting slug limit = do
  tenant ← or_raise (← gets (find_tenant slug)) (not_found "Tenant not found")
  rows ← gets (owed_rows sorting tenant.id (resend_limit limit))
  resend_each env tenant rows
