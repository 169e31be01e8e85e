-- ===== src/Service/Slots.antt =====
-- About writes of bookings and the unique index on active rows (line 142 of
-- apps/api/prisma/migrations/20250121160000_init/migration.sql).
use booking_zoom_connect.Prelude.{
  ◌≡◌, refl, ◌⊎◌, inl, inr, true, false, In, Option-cases, find_first, find_first-In,
  find_first-test, find_first-none,
}
use booking_zoom_connect.Store.{Booking, shares_slot, update_booking}
use booking_zoom_connect.Service.{
  World, ok, err, unique_violation, modify_slot, modify_booking, ◌>>=◌,
}

-- The world in which a booking is rewritten.
abbrev pub rewritten : Booking → (Booking → Booking) → World → World
rewritten b f w = record w { db = record w.db { bookings = update_booking b.id f w.db.bookings } }

-- The write is refused for a row that shares the slot, or no row shares it and the row is rewritten.
pub modify_slot_decides :
    (b : Booking) (f : Booking → Booking) (w : World)
    → ((o : Booking) × In o w.db.bookings
        × (shares_slot (f b) o ≡ true)
        × (modify_slot b f w ≡ (err unique_violation, w)))
      ⊎ (((o : Booking) → In o w.db.bookings → shares_slot (f b) o ≡ false)
          × (modify_slot b f w ≡ (ok tt, rewritten b f w)))
unfolding modify_slot modify_booking ◌>>=◌
modify_slot_decides b f w = elim (Option-cases (find_first (shares_slot (f b)) w.db.bookings)) [
  | inl free ↦ inr (λ o m. find_first-none _ w.db.bookings o free m, rw free refl)
  | inr (o, found) ↦ inl (
    o,
    find_first-In _ w.db.bookings o found,
    find_first-test _ w.db.bookings o found,
    rw found refl,
  )
]
