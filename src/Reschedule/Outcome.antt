-- ===== src/Reschedule/Outcome.antt =====
-- About the transaction of `rescheduleBooking` (apps/api/src/services/booking.service.ts): its writes.
use booking_zoom_connect.Prelude.{
  ℕ, ◌≡◌, ◌⊎◌, inl, inr, false, none, some, In, arith, find_first, find_first-In, Option-cases,
  find_first,
}
use booking_zoom_connect.Store.{Booking, Db, update_booking, has_id}
use booking_zoom_connect.Service.{World, err, not_found, transaction, ◌>>=◌}
use booking_zoom_connect.Service.Slots.{modify_slot_decides}
use booking_zoom_connect.Reschedule.{
  move_to, add_event, in_the_way, blocks, move_latest, reschedule_tx,
}

-- What the transaction did: nothing, or it moved the row that it read and that nothing blocked.
pub record Moves (now start end : ℕ) (db db' : Db) (b : Booking) : Type 0 where
  pub found : In b db.bookings
  pub free : blocks now (find_first (in_the_way start end b) db.bookings) ≡ false
  pub wrote : db'.bookings ≡ update_booking b.id (move_to start end) db.bookings

move_latest_outcome :
    (now start end : ℕ) (b : Booking) (w : World)
    → In b w.db.bookings
    → ((transaction (move_latest now start end b) w).1.db ≡ w.db)
      ⊎ Moves now start end w.db (transaction (move_latest now start end b) w).1.db b
unfolding move_latest add_event transaction ◌>>=◌
move_latest_outcome now start end b w m = elim (modify_slot_decides b (move_to start end) w) [
  | inl (o, mo, shared, refused) ↦ ground arith
  | inr (free, wrote) ↦ ground arith
]

reschedule_tx_found :
    (now id start end : ℕ) (b : Booking) (w : World)
    → find_first (has_id id) w.db.bookings ≡ some b
    → reschedule_tx now id start end w ≡ move_latest now start end b w
unfolding reschedule_tx ◌>>=◌
reschedule_tx_found now id start end b w found = rw found

reschedule_tx_absent :
    (now id start end : ℕ) (w : World)
    → find_first (has_id id) w.db.bookings ≡ none
    → (reschedule_tx now id start end w) ≡ (err (not_found "Booking not found"), w)
unfolding reschedule_tx ◌>>=◌
reschedule_tx_absent now id start end w absent = rw absent

pub reschedule_tx_outcome :
    (now id start end : ℕ) (w : World)
    → ((transaction (reschedule_tx now id start end) w).1.db ≡ w.db)
      ⊎ ((b : Booking) × Moves now start end w.db
            (transaction (reschedule_tx now id start end) w).1.db
            b)
unfolding transaction
reschedule_tx_outcome now id start end w =
    elim (Option-cases (find_first (has_id id) w.db.bookings)) [
      | inl absent ↦ inl (rw (reschedule_tx_absent now id start end w absent))
      | inr (b, found) ↦
          rw (reschedule_tx_found now id start end b w found)
            (elim (move_latest_outcome now start end b w
              (find_first-In (has_id id) w.db.bookings b found)) [
                | inl same ↦ inl same
                | inr m ↦ inr (b, m)
              ])
    ]
