-- ===== src/Schedule.antt =====
-- The promise that the booking service (apps/api/src/services/booking.service.ts) makes about its
-- calendar, `IsSound`, and the kinds of writes that the methods make.
pub mod Rules
pub mod Index
use booking_zoom_connect.Prelude.{
  update_many, In-update_many, Bool, if◌then◌else◌, ℕ, ◌<◌, ◌≡◌, refl, ◌≢◌, ◌⊎◌, inl, inr, true,
  false, some, List, ◌∷◌, [], arith, In, ap, sym, ◌∙◌, not, ◌&&◌, find_first-none, ◌==◌,
  Option-cases, find_first,
}
use booking_zoom_connect.Store.{Booking, BookingStatus, confirmed, Db, update_booking, conflicts_at}
use booking_zoom_connect.Store.Keys.{HasUniqueIds, In-update_booking}

-- The two bookings are of one salesperson and share an instant.
abbrev pub Clashes : Booking → Booking → Type 0
Clashes a b =
    (a.tenant_id ≡ b.tenant_id)
    × (a.salesperson_id ≡ b.salesperson_id)
    × (a.start_at_utc < b.end_at_utc)
    × (b.start_at_utc < a.end_at_utc)

-- No two confirmed bookings of one salesperson overlap.
abbrev pub NoDoubleBooking : List Booking → Type 0
NoDoubleBooking bs =
    (a b : Booking)
    → In a bs
    → In b bs
    → a.id ≢ b.id
    → a.status ≡ confirmed
    → b.status ≡ confirmed
    → ¬ Clashes a b

pub record IsSound (db : Db) : Type 0 where
  pub unique : HasUniqueIds db.bookings
  pub disjoint : NoDoubleBooking db.bookings

-- `c` has the id and the slot of `b`, and is confirmed only if `b` is.
pub record IsTamed (c b : Booking) : Type 0 where
  pub same_id : c.id ≡ b.id
  pub same_tenant : c.tenant_id ≡ b.tenant_id
  pub same_salesperson : c.salesperson_id ≡ b.salesperson_id
  pub same_start : c.start_at_utc ≡ b.start_at_utc
  pub same_end : c.end_at_utc ≡ b.end_at_utc
  pub confirms_none : c.status ≡ confirmed → b.status ≡ confirmed

-- A rewriting that confirms no row and moves none.
abbrev pub IsTame : (Booking → Booking) → Type 0
IsTame f = (b : Booking) → IsTamed (f b) b

module _ (id : ℕ) (f : Booking → Booking) (bs : List Booking) where
  pub update-HasUniqueIds :
      ((b : Booking) → (f b).id ≡ b.id) → HasUniqueIds bs → HasUniqueIds (update_booking id f bs)
  update-HasUniqueIds same u a b ma mb e =
      go (In-update_booking id f bs a ma) (In-update_booking id f bs b mb)
    where
      go :
          (In a bs × (a.id ≢ id)) ⊎ ((c : Booking) × In c bs × (c.id ≡ id) × (a ≡ f c))
          → (In b bs × (b.id ≢ id)) ⊎ ((c : Booking) × In c bs × (c.id ≡ id) × (b ≡ f c))
          → a ≡ b
      go (inl (oa, na)) (inl (ob, nb)) = u a b oa ob e
      go (inl (oa, na)) (inr (c, oc, ic, ec)) = absurd (na (ground (arith, same c)))
      go (inr (c, oc, ic, ec)) (inl (ob, nb)) = absurd (nb (ground (arith, same c)))
      go (inr (c, oc, ic, ec)) (inr (d, od, id', ed)) =
          ec ∙ ap f (u c d oc od (ic ∙ sym id')) ∙ sym ed

  -- Rewriting a row keeps the calendar free of double bookings if the row, should it now be
  -- confirmed, clashes with no other confirmed row.
  pub update-NoDoubleBooking :
      ((b : Booking) → (f b).id ≡ b.id)
      → ((r o : Booking)
          → In r bs
          → r.id ≡ id
          → In o bs
          → o.id ≢ id
          → o.status ≡ confirmed
          → (f r).status ≡ confirmed
          → ¬ Clashes (f r) o)
      → NoDoubleBooking bs
      → NoDoubleBooking (update_booking id f bs)
  update-NoDoubleBooking same free d a b ma mb ne ca cb clash =
      go (In-update_booking id f bs a ma) (In-update_booking id f bs b mb)
    where
      go :
          (In a bs × (a.id ≢ id)) ⊎ ((c : Booking) × In c bs × (c.id ≡ id) × (a ≡ f c))
          → (In b bs × (b.id ≢ id)) ⊎ ((c : Booking) × In c bs × (c.id ≡ id) × (b ≡ f c))
          → ⊥
      go (inl (oa, na)) (inl (ob, nb)) = d a b oa ob ne ca cb clash
      go (inl (oa, na)) (inr (c, oc, ic, ec)) =
          free c a oc ic oa na ca (ground arith) (ground arith)
      go (inr (c, oc, ic, ec)) (inl (ob, nb)) =
          free c b oc ic ob nb cb (ground arith) (ground arith)
      go (inr (c, oc, ic, ec)) (inr (e, oe, ie, ee)) = ne (ground (arith, same c, same e))

  pub tame-NoDoubleBooking :
      IsTame f → NoDoubleBooking bs → NoDoubleBooking (update_booking id f bs)
  tame-NoDoubleBooking t d =
      update-NoDoubleBooking (λ b. (t b).same_id)
        (λ r o mr ir mo no co cr clash.
          d r o mr mo (λ e. no (sym e ∙ ir)) ((t r).confirms_none cr) co (ground (arith, t r)))
        d

-- A tame rewriting of the row with an id keeps a sound database sound.
pub tame-IsSound :
    (id : ℕ) (f : Booking → Booking) (db : Db)
    → IsTame f
    → IsSound db
    → IsSound (record db { bookings = update_booking id f db.bookings })
tame-IsSound id f db t s = record {
  unique = update-HasUniqueIds id f db.bookings (λ b. (t b).same_id) s.unique;
  disjoint = tame-NoDoubleBooking id f db.bookings t s.disjoint;
}

-- The same for a rewriting of all rows that a test accepts.
pub many-IsSound :
    (p : Booking → Bool) (f : Booking → Booking) (db : Db)
    → IsTame f
    → IsSound db
    → IsSound (record db { bookings = update_many p f db.bookings })
many-IsSound p f db t s = record { unique = unique'; disjoint = disjoint' }
  where
    origin :
        (a : Booking)
        → In a (update_many p f db.bookings)
        → (c : Booking) × In c db.bookings × IsTamed a c × (a ≡ (if p c then f c else c))
    origin a m = elim (In-update_many p f db.bookings a m) [
      | inl (old, kept) ↦ (a, old, ground arith, ground arith)
      | inr (c, old, hit, e) ↦ (c, old, ground (arith, t c), ground arith)
    ]

    unique' : HasUniqueIds (update_many p f db.bookings)
    unique' a b ma mb e =
        let (x, mx, tx, ex) = origin a ma in
        let (y, my, ty, ey) = origin b mb in
        let same : x ≡ y = s.unique x y mx my (sym tx.same_id ∙ e ∙ ty.same_id) in ground arith

    disjoint' : NoDoubleBooking (update_many p f db.bookings)
    disjoint' a b ma mb ne ca cb clash =
        let (x, mx, tx, ex) = origin a ma in
        let (y, my, ty, ey) = origin b mb in
        s.disjoint x y mx my (λ e. ne (tx.same_id ∙ e ∙ sym ty.same_id)) (tx.confirms_none ca)
          (ty.confirms_none cb) (ground arith)

-- A row with a new id that is not confirmed can be added.
pub insert-IsSound :
    (b : Booking) (db : Db)
    → b.status ≢ confirmed
    → ((o : Booking) → In o db.bookings → o.id ≢ b.id)
    → IsSound db
    → IsSound (record db { bookings = b ∷ db.bookings })
insert-IsSound b db open_row fresh s = record { unique = unique'; disjoint = disjoint' }
  where
    unique' : HasUniqueIds (b ∷ db.bookings)
    unique' x y (inl ex) (inl ey) e = ex ∙ sym ey
    unique' x y (inl ex) (inr my) e = absurd (fresh y my (ground arith))
    unique' x y (inr mx) (inl ey) e = absurd (fresh x mx (ground arith))
    unique' x y (inr mx) (inr my) e = s.unique x y mx my e

    disjoint' : NoDoubleBooking (b ∷ db.bookings)
    disjoint' x y (inl ex) my ne cx cy = absurd (open_row (ground arith))
    disjoint' x y (inr mx) (inl ey) ne cx cy = absurd (open_row (ground arith))
    disjoint' x y (inr mx) (inr my) ne cx cy = s.disjoint x y mx my ne cx cy

-- Only the bookings matter.
pub same_bookings-IsSound : (db db' : Db) → db'.bookings ≡ db.bookings → IsSound db → IsSound db'
same_bookings-IsSound db db' e s = record { unique = rw e s.unique; disjoint = rw e s.disjoint }
