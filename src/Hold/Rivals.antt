-- ===== src/Hold/Rivals.antt =====
-- About `tryCreateHoldForSalespersonTx` (apps/api/src/services/booking.service.ts) and other
-- bookings in the slot.
use booking_zoom_connect.Prelude.{
  ℕ, ◌≡◌, ◌⊎◌, inl, inr, true, false, none, some, ◌∷◌, In, arith, find_first, find_first-none,
  find_first-test, Option-cases, find_first-In, Bool-cases,
}
use booking_zoom_connect.Store.{Booking, conflicts_at, is_live, update_booking, shares_slot}
use booking_zoom_connect.Service.{Env, World, ok, err, unique_violation, ◌>>=◌}
use booking_zoom_connect.Service.Slots.{modify_slot_decides}
use booking_zoom_connect.Hold.{
  HoldParams, hold_until, rehold, new_booking, is_same_slot, insert_booking, hold_free, hold_slot,
  try_create_hold,
}

-- For a slot of a salesperson that no row has exactly there are two cases: a live row overlaps it,
-- and then it is not given and nothing changes; or none does, and then a new row holds it, until
-- the configured time is over.
pub new_slot_decides :
    (env : Env) (p : HoldParams) (s : ℕ) (w : World)
    → find_first (is_same_slot p s) w.db.bookings ≡ none
    → ((o : Booking) × In o w.db.bookings
        × (conflicts_at p.tenant_id s p.start_at p.end_at p.now o ≡ true)
        × (try_create_hold env p s w ≡ (ok none, w)))
      ⊎ (((o : Booking)
            → In o w.db.bookings
            → conflicts_at p.tenant_id s p.start_at p.end_at p.now o ≡ false)
          × ((try_create_hold env p s w).0
              ≡ ok (some (new_booking env p s (env.new_booking_id w.db))))
          × ((try_create_hold env p s w).1.db.bookings
              ≡ new_booking env p s (env.new_booking_id w.db) ∷ w.db.bookings))
unfolding try_create_hold hold_slot hold_free insert_booking ◌>>=◌
new_slot_decides env p s w no_row =
    elim (Option-cases
      (find_first (conflicts_at p.tenant_id s p.start_at p.end_at p.now) w.db.bookings)) [
        | inl nothing ↦
            inr (λ o m. find_first-none _ w.db.bookings o nothing m, ground arith, ground arith)
        | inr (x, found) ↦ inl (
          x,
          find_first-In _ w.db.bookings x found,
          find_first-test _ w.db.bookings x found,
          ground arith,
        )
      ]

-- A slot that a row has already. If that row is live, the slot is not given and nothing changes. If it is
-- not, and another active row has the very slot, the database refuses the write and nothing changes. Else the slot is given, whatever other rows overlap it, and the
-- row is rewritten for the new hold.
pub same_slot_reused :
    (env : Env) (p : HoldParams) (s : ℕ) (old : Booking) (w : World)
    → find_first (is_same_slot p s) w.db.bookings ≡ some old
    → (is_live p.now old ≡ true) × (try_create_hold env p s w ≡ (ok none, w))
      ⊎ (is_live p.now old ≡ false)
        × ((o : Booking) × In o w.db.bookings
            × (shares_slot (rehold (hold_until env p.now) p old) o ≡ true))
        × (try_create_hold env p s w ≡ (err unique_violation, w))
      ⊎ (is_live p.now old ≡ false)
        × ((o : Booking)
            → In o w.db.bookings
            → shares_slot (rehold (hold_until env p.now) p old) o ≡ false)
        × ((try_create_hold env p s w).0 ≡ ok (some (rehold (hold_until env p.now) p old)))
        × ((try_create_hold env p s w).1.db.bookings
            ≡ update_booking old.id (rehold (hold_until env p.now) p) w.db.bookings)
unfolding try_create_hold hold_slot ◌>>=◌
same_slot_reused env p s old w found =
    elim (modify_slot_decides old (rehold (hold_until env p.now) p) w) [
      | inl (o, m, shared, refused) ↦ elim (Bool-cases (is_live p.now old)) [
        | inl live ↦ inl (ground arith)
        | inr dead ↦ inr (inl (dead, (o, m, shared), ground arith))
      ]
      | inr (free, wrote) ↦ elim (Bool-cases (is_live p.now old)) [
        | inl live ↦ inl (ground arith)
        | inr dead ↦ inr (inr (dead, free, ground arith, ground arith))
      ]
    ]
