-- ===== src/Hold/Given.antt =====
-- About the transaction of `createHold` (apps/api/src/services/booking.service.ts) for a slot that no live
-- row overlaps.
use booking_zoom_connect.Prelude.{
  ℕ, suc, ◌≡◌, refl, ◌⊎◌, inl, inr, true, false, none, some, List, ◌∷◌, ◌<◌, In, arith,
  Option-cases, Bool-cases, length, find_first, find_first-In, find_first-test,
}
use booking_zoom_connect.Store.{
  Db, Booking, Salesperson, Hold, conflicts_at, hold, is_live, is_held, is_active, hold_after,
  shares_slot,
}
use booking_zoom_connect.Service.{Env, World, Result, ok, err, unique_violation, ◌>>=◌}
use booking_zoom_connect.Hold.{
  HoldParams, hold_until, rehold, new_booking, candidates, ids_of, has_busy, is_same_slot,
  try_create_hold, assign, try_one, found_or, hold_new, hold_known, hold_tx, is_hold_key,
}
use booking_zoom_connect.Hold.Rivals.{new_slot_decides, same_slot_reused}

-- A hold of the slot for the salesperson.
pub record IsHoldOf (p : HoldParams) (s : ℕ) (b : Booking) : Type 0 where
  pub status : b.status ≡ hold
  pub salesperson : b.salesperson_id ≡ s
  pub start : b.start_at_utc ≡ p.start_at
  pub end : b.end_at_utc ≡ p.end_at
  pub customer : b.customer_id ≡ p.customer_id

-- A row that keeps the very slot by a hold that has run out.
pub record IsStaleOn (p : HoldParams) (s : ℕ) (o : Booking) : Type 0 where
  pub same : is_same_slot p s o ≡ true
  pub held : is_held o.status ≡ true
  pub run_out : hold_after p.now o.held ≡ false

-- What a request for the slot results in: a hold of it, or the unique index refuses, for such a row.
abbrev pub IsHeldOrRefused : HoldParams → ℕ → Db → Result Booking → Type 0
IsHeldOrRefused p s db r =
    ((b : Booking) × (r ≡ ok b) × IsHoldOf p s b)
    ⊎ ((o : Booking) × In o db.bookings × IsStaleOn p s o × (r ≡ err unique_violation))

module _ (env : Env) (p : HoldParams) where
  same_slot_conflicts :
      (s : ℕ) (old : Booking)
      → p.start_at < p.end_at
      → is_same_slot p s old ≡ true
      → is_live p.now old ≡ true
      → conflicts_at p.tenant_id s p.start_at p.end_at p.now old ≡ true
  unfolding conflicts_at
  same_slot_conflicts s old pos same live = ground arith

  shared-is_same_slot :
      (s : ℕ) (h : Hold) (old o : Booking)
      → is_same_slot p s old ≡ true
      → shares_slot (rehold h p old) o ≡ true
      → (is_same_slot p s o ≡ true) × (is_active o ≡ true)
  unfolding shares_slot
  shared-is_same_slot s h old o same shared = (ground arith, ground arith)

  active-IsStaleOn :
      (s : ℕ) (o : Booking)
      → p.start_at < p.end_at
      → is_same_slot p s o ≡ true
      → is_active o ≡ true
      → conflicts_at p.tenant_id s p.start_at p.end_at p.now o ≡ false
      → IsStaleOn p s o
  active-IsStaleOn s o pos same active free = elim (Bool-cases (is_live p.now o)) [
    | inl live ↦ absurd (ground (arith, same_slot_conflicts s o pos same live))
    | inr dead ↦ record { same = same; held = ground arith; run_out = ground arith }
  ]

  abbrev IsFree : ℕ → World → Type 0
  IsFree s w =
      (b : Booking)
      → In b w.db.bookings
      → conflicts_at p.tenant_id s p.start_at p.end_at p.now b ≡ false

  -- What the helper's result is for the first of a list.
  abbrev IsGiven : ℕ → World → Type 0
  IsGiven s w =
      ((b : Booking) × ((try_create_hold env p s w).0 ≡ ok (some b)) × IsHoldOf p s b)
      ⊎ ((o : Booking) × In o w.db.bookings
          × IsStaleOn p s o
          × (try_create_hold env p s w ≡ (err unique_violation, w)))

  pub free_slot-IsGiven : (s : ℕ) (w : World) → p.start_at < p.end_at → IsFree s w → IsGiven s w
  free_slot-IsGiven s w pos free =
      elim (Option-cases (find_first (is_same_slot p s) w.db.bookings)) [
        | inl no_row ↦ elim (new_slot_decides env p s w no_row) [
          | inl (o, m, c, r) ↦ absurd (ground (arith, free o m))
          | inr (f, given, rows) ↦ inl (
            new_booking env p s (env.new_booking_id w.db),
            given,
            record { status = refl; salesperson = refl; start = refl; end = refl; customer = refl },
          )
        ]
        | inr (old, found) ↦ old_slot-IsGiven s old w pos free found
      ]
    where
      old_slot-IsGiven :
          (s : ℕ) (old : Booking) (w : World)
          → p.start_at < p.end_at
          → IsFree s w
          → find_first (is_same_slot p s) w.db.bookings ≡ some old
          → IsGiven s w
      old_slot-IsGiven s old w pos free found =
          let m = find_first-In _ w.db.bookings old found in
          let same = find_first-test (is_same_slot p s) w.db.bookings old found in
          elim (same_slot_reused env p s old w found) [
            | inl (live, r) ↦
                absurd (ground (arith, free old m, same_slot_conflicts s old pos same live))
            | inr (inl (dead, (o, mo, shared), refused)) ↦
                (let (same', active) = shared-is_same_slot s _ old o same shared in
                  inr (o, mo, active-IsStaleOn s o pos same' active (free o mo), refused))
            | inr (inr (dead, alone, given, rows)) ↦ inl (
              rehold (hold_until env p.now) p old,
              given,
              record {
                status = refl;
                salesperson = ground arith;
                start = ground arith;
                end = ground arith;
                customer = refl;
              },
            )
          ]

  -- The loop, with one salesperson that is not busy.
  pub assign_first :
      (busy rest : List ℕ) (s start left : ℕ) (w : World)
      → has_busy s busy ≡ false
      → IsGiven s w
      → IsHeldOrRefused p s w.db (assign env p true busy (s ∷ rest) start (suc left) 0 w).0
  unfolding assign try_one found_or ◌>>=◌
  assign_first busy rest s start left w idle (inl (b, given, held)) = inl (b, ground arith, held)
  assign_first busy rest s start left w idle (inr (o, m, stale, refused)) =
      inr (o, m, stale, ground arith)

  pub hold_chosen :
      (s : ℕ) (busy : List ℕ) (x : Salesperson) (rest : List Salesperson) (w : World)
      → find_first (is_hold_key p.tenant_id p.idempotency_key) w.db.bookings ≡ none
      → candidates env p.tenant_id (some s) w.db ≡ x ∷ rest
      → x.id ≡ s
      → (hold_tx env p (some s) busy w).0
        ≡ (assign env p true busy (s ∷ ids_of rest) 0 (suc (length rest)) 0 w).0
  unfolding hold_tx hold_known hold_new ◌>>=◌
  hold_chosen s busy x rest w new those same = ground arith
