-- ===== src/Schedule/Index.antt =====
-- About the unique index on the slots of active bookings (`bookings_active_slot_unique` of
-- apps/api/prisma/migrations/20250121160000_init/migration.sql) and updates by id.
use booking_zoom_connect.Prelude.{
  ℕ, ◌≡◌, ◌≢◌, ◌⊎◌, inl, inr, true, false, List, ◌∷◌, In, arith, sym, ap, ◌∙◌, subst,
}
use booking_zoom_connect.Store.{Db, Booking, is_active, shares_slot, update_booking}
use booking_zoom_connect.Store.Keys.{HasUniqueIds, In-update_booking}
use booking_zoom_connect.Schedule.{update-HasUniqueIds}

-- No two active rows have all columns of the index in common.
abbrev pub HasUniqueSlots : List Booking → Type 0
HasUniqueSlots bs = (a b : Booking) → In a bs → In b bs → shares_slot a b ≡ false

pub record IsIndexed (db : Db) : Type 0 where
  pub unique : HasUniqueIds db.bookings
  pub slots : HasUniqueSlots db.bookings

shares_slot_sym : (a b : Booking) → shares_slot a b ≡ false → shares_slot b a ≡ false
unfolding shares_slot
shares_slot_sym a b h = ground arith

shares_slot_same_id : (a b : Booking) → a.id ≡ b.id → shares_slot a b ≡ false
unfolding shares_slot
shares_slot_same_id a b h = ground arith

module _ (id : ℕ) (f : Booking → Booking) (bs : List Booking)
    (same : (b : Booking) → (f b).id ≡ b.id)
    (free : (x o : Booking) → In x bs → x.id ≡ id → In o bs → shares_slot (f x) o ≡ false) where
  abbrev IsAfter : Booking → Type 0
  IsAfter a = (In a bs × (a.id ≢ id)) ⊎ ((c : Booking) × In c bs × (c.id ≡ id) × (a ≡ f c))

  after-HasUniqueSlots :
      (a b : Booking) → HasUniqueSlots bs → IsAfter a → IsAfter b → shares_slot a b ≡ false
  after-HasUniqueSlots a b u (inl (oa, na)) (inl (ob, nb)) = u a b oa ob
  after-HasUniqueSlots a b u (inl (oa, na)) (inr (c, oc, ic, ec)) =
      subst (λ x. shares_slot a x ≡ false) (sym ec) (shares_slot_sym (f c) a (free c a oc ic oa))
  after-HasUniqueSlots a b u (inr (c, oc, ic, ec)) (inl (ob, nb)) =
      subst (λ x. shares_slot x b ≡ false) (sym ec) (free c b oc ic ob)
  after-HasUniqueSlots a b u (inr (c, oc, ic, ec)) (inr (d, od, id', ed)) =
      shares_slot_same_id a b
        (ap (λ x. x.id) ec ∙ same c ∙ ic ∙ sym id' ∙ sym (same d) ∙ ap (λ x. x.id) (sym ed))

  update-HasUniqueSlots : HasUniqueSlots bs → HasUniqueSlots (update_booking id f bs)
  update-HasUniqueSlots u a b ma mb =
      after-HasUniqueSlots a b u (In-update_booking id f bs a ma) (In-update_booking id f bs b mb)

-- A row of the database is rewritten, and in its new form shares its slot with no row.
pub rewrite-IsIndexed :
    (b : Booking) (f : Booking → Booking) (db db' : Db)
    → In b db.bookings
    → ((x : Booking) → (f x).id ≡ x.id)
    → ((o : Booking) → In o db.bookings → shares_slot (f b) o ≡ false)
    → db'.bookings ≡ update_booking b.id f db.bookings
    → IsIndexed db
    → IsIndexed db'
rewrite-IsIndexed b f db db' m same free wrote s = record {
  unique = subst HasUniqueIds (sym wrote) (update-HasUniqueIds b.id f db.bookings same s.unique);
  slots = subst HasUniqueSlots (sym wrote) (
      update-HasUniqueSlots b.id f db.bookings same
        (λ x o mx ix mo.
          subst (λ y. shares_slot (f y) o ≡ false) (s.unique b x m mx (sym ix)) (free o mo))
        s.slots);
}

-- A new row, with a new id and a slot that no active row has.
pub insert-IsIndexed :
    (b : Booking) (db db' : Db)
    → ((o : Booking) → In o db.bookings → o.id ≢ b.id)
    → ((o : Booking) → In o db.bookings → shares_slot b o ≡ false)
    → db'.bookings ≡ b ∷ db.bookings
    → IsIndexed db
    → IsIndexed db'
insert-IsIndexed b db db' fresh free wrote s = record {
  unique = subst HasUniqueIds (sym wrote) unique';
  slots = subst HasUniqueSlots (sym wrote) slots';
}
  where
    unique' : HasUniqueIds (b ∷ db.bookings)
    unique' x y (inl ex) (inl ey) e = ex ∙ sym ey
    unique' x y (inl ex) (inr my) e = absurd (fresh y my (ground arith))
    unique' x y (inr mx) (inl ey) e = absurd (fresh x mx (ground arith))
    unique' x y (inr mx) (inr my) e = s.unique x y mx my e

    slots' : HasUniqueSlots (b ∷ db.bookings)
    slots' x y (inl ex) (inl ey) = shares_slot_same_id x y (ap (λ z. z.id) (ex ∙ sym ey))
    slots' x y (inl ex) (inr my) = subst (λ z. shares_slot z y ≡ false) (sym ex) (free y my)
    slots' x y (inr mx) (inl ey) =
        subst (λ z. shares_slot x z ≡ false) (sym ey) (shares_slot_sym b x (free x mx))
    slots' x y (inr mx) (inr my) = s.slots x y mx my

pub same_bookings-IsIndexed :
    (db db' : Db) → db'.bookings ≡ db.bookings → IsIndexed db → IsIndexed db'
same_bookings-IsIndexed db db' e s = record { unique = rw e s.unique; slots = rw e s.slots }

-- A rewriting that keeps the slot and makes no row active.
pub quiet-IsFree :
    (b b' o : Booking)
    → b'.id ≡ b.id
    → b'.tenant_id ≡ b.tenant_id
    → b'.salesperson_id ≡ b.salesperson_id
    → b'.start_at_utc ≡ b.start_at_utc
    → b'.end_at_utc ≡ b.end_at_utc
    → is_active b ≡ true
    → shares_slot b o ≡ false
    → shares_slot b' o ≡ false
unfolding shares_slot
quiet-IsFree b b' o ei et ep es ee active free = ground arith

-- Whatever row it is applied to, a rewriting that makes it share a slot with no further row.
abbrev pub IsQuiet : (Booking → Booking) → Type 0
IsQuiet f =
    (b : Booking)
    → ((f b).id ≡ b.id) × ((o : Booking) → shares_slot b o ≡ false → shares_slot (f b) o ≡ false)

pub quiet-IsIndexed :
    (id : ℕ) (f : Booking → Booking) (db : Db)
    → IsQuiet f
    → IsIndexed db
    → IsIndexed (record db { bookings = update_booking id f db.bookings })
quiet-IsIndexed id f db quiet s = record {
  unique = update-HasUniqueIds id f db.bookings (λ b. (quiet b).0) s.unique;
  slots =
      update-HasUniqueSlots id f db.bookings (λ b. (quiet b).0)
        (λ x o mx ix mo. (quiet x).1 o (s.slots x o mx mo)) s.slots;
}
