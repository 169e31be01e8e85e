-- ===== src/Store/Keys.antt =====
-- About the primary key of the bookings (apps/api/prisma/schema.prisma) and updates by id.
use booking_zoom_connect.Prelude.{
  ℕ, some, List, ◌≡◌, ◌≢◌, ◌⊎◌, inl, inr, arith, In, ◌==◌, ◌&&◌, find_first, update_many, [], ◌∷◌,
  find_first-In, find_first-test, In-update_many,
}
use booking_zoom_connect.Store.Tables.{Booking}
use booking_zoom_connect.Store.Queries.{has_id, find_booking, update_booking}

-- No two rows share an id.
abbrev pub HasUniqueIds : List Booking → Type 0
HasUniqueIds bs = (a b : Booking) → In a bs → In b bs → a.id ≡ b.id → a ≡ b

pub find_booking-In :
    (id tenant : ℕ) (bs : List Booking) (b : Booking) → find_booking id tenant bs ≡ some b → In b bs
unfolding find_booking
find_booking-In id tenant bs b h = find_first-In _ bs b h

pub find_booking_fields :
    (id tenant : ℕ) (bs : List Booking) (b : Booking)
    → find_booking id tenant bs ≡ some b
    → (b.id ≡ id) × (b.tenant_id ≡ tenant)
unfolding find_booking
find_booking_fields id tenant bs b h =
    ground (arith, find_first-test (λ b. b.id == id && b.tenant_id == tenant) bs b h)

-- A row after an update by id: another row, or the rewriting of the row with the id.
pub In-update_booking :
    (id : ℕ) (f : Booking → Booking) (bs : List Booking) (a : Booking)
    → In a (update_booking id f bs)
    → (In a bs × (a.id ≢ id)) ⊎ ((b : Booking) × In b bs × (b.id ≡ id) × (a ≡ f b))
unfolding update_booking
In-update_booking id f bs a m = elim (In-update_many (has_id id) f bs a m) [
  | inl (old, kept) ↦ inl (old, ground arith)
  | inr (b, old, hit, e) ↦ inr (b, old, ground arith, e)
]

-- An update by id that keeps the ids and the tenant is seen by the search that found the row.
pub find_booking-update_booking :
    (id tenant : ℕ) (f : Booking → Booking) (bs : List Booking) (b : Booking)
    → ((x : Booking) → ((f x).id ≡ x.id) × ((f x).tenant_id ≡ x.tenant_id))
    → find_booking id tenant bs ≡ some b
    → find_booking id tenant (update_booking id f bs) ≡ some (f b)
unfolding find_booking update_booking find_first update_many
find_booking-update_booking id tenant f [] b same found = ground arith
find_booking-update_booking id tenant f (x ∷ bs) b same found =
    ground (arith, same x, find_booking-update_booking id tenant f bs b same)
