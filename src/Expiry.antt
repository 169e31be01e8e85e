-- ===== src/Expiry.antt =====
-- `BookingService.expireHolds` (apps/api/src/services/booking.service.ts), which ExpiryWorker.tick
-- (apps/api/src/services/expiry.worker.ts) runs every minute.
pub mod Laws
use booking_zoom_connect.Prelude.{
  ℕ, ⊤, Bool, true, false, ◌&&◌, ◌||◌, Option, none, some, List, [], ◌∷◌, ◌==◌, ltb, find_many,
  update_many, length, if◌then◌else◌,
}
use booking_zoom_connect.Store.{Db, Booking, Hold, is_held}
use booking_zoom_connect.Service.{
  Action, pure, gets, modify, modify_cache, ◌>>=◌, ◌>>◌, expire, drop_hold, is_some,
}

-- `hold: { is: { expires_at_utc: { lt: now } } }`
abbrev pub hold_before : ℕ → Option Hold → Bool
hold_before now none = false
hold_before now (some h) = ltb h.expires_at_utc now

abbrev pub is_run_out : ℕ → Booking → Bool
is_run_out now b = is_held b.status && hold_before now b.held

-- `id: { in: ids }`
abbrev pub has_id_in : List Booking → Booking → Bool
has_id_in [] b = false
has_id_in (x ∷ xs) b = x.id == b.id || has_id_in xs b

abbrev pub is_swept : List Booking → Booking → Bool
is_swept ids b = has_id_in ids b && is_held b.status

abbrev pub has_swept_hold : List Booking → Booking → Bool
has_swept_hold ids b = has_id_in ids b && is_some b.held

-- The two writes of the transaction.
unfoldable pub sweep : List Booking → Db → Db
sweep ids db = record db {
  bookings = update_many (has_id_in ids) drop_hold (update_many (is_swept ids) expire db.bookings);
}

-- The counts of expired bookings and deleted holds.
unfoldable pub expire_found : List Booking → Action (ℕ × ℕ)
expire_found [] = pure (0, 0)
expire_found (x ∷ xs) = do
  counts ← gets (λ db. (
    length (find_many (is_swept (x ∷ xs)) db.bookings),
    length (find_many (has_swept_hold (x ∷ xs)) db.bookings),
  ))
  modify (sweep (x ∷ xs))
  modify_cache (λ _. [])
  pure counts

unfoldable pub expire_holds : ℕ → Action (ℕ × ℕ)
expire_holds now = do
  expired ← gets (λ db. find_many (is_run_out now) db.bookings)
  expire_found expired
