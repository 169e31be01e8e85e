-- ===== src/Hold/Replay.antt =====
-- About the transaction of `createHold` (apps/api/src/services/booking.service.ts) and its
-- idempotency key.
use booking_zoom_connect.Prelude.{
  ℕ, zero, suc, ◌≡◌, ◌⊎◌, inl, inr, Bool, Option, none, some, List, arith, find_first,
  find_first-In, find_first-here, find_first-test, find_first-update_many, Option-cases,
  str_eq_refl, length, ◌==◌,
}
use booking_zoom_connect.Store.{Booking, has_id, update_booking, conflicts_at}
use booking_zoom_connect.Store.Keys.{HasUniqueIds}
use booking_zoom_connect.Service.{
  Env, World, Action, Result, ok, err, HttpError, unique_violation, is_some, ◌>>=◌,
}
use booking_zoom_connect.Hold.{
  HoldParams, hold_until, rehold, new_booking, is_same_slot, insert_booking, hold_free, hold_slot,
  try_create_hold, hold_tx, hold_known, hold_new, is_hold_key, assign, try_one, found_or,
  set_cursor, candidates, ids_of, start_index, cursor_of,
}
use booking_zoom_connect.Hold.Rivals.{same_slot_reused}

module _ (env : Env) (p : HoldParams) where
  -- The row that the key finds afterwards.
  abbrev IsFoundBy : Booking → World → Type 0
  IsFoundBy b w = find_first (is_hold_key p.tenant_id p.idempotency_key) w.db.bookings ≡ some b

  abbrev IsNew : World → Type 0
  IsNew w = find_first (is_hold_key p.tenant_id p.idempotency_key) w.db.bookings ≡ none

  -- Nothing was given and nothing changed, or the row that was given is found by the key, or the
  -- database refused.
  abbrev Gives : Result (Option Booking) × World → World → Type 0
  Gives r w =
      (r ≡ (ok none, w))
      ⊎ ((b : Booking) × (r.0 ≡ ok (some b)) × IsFoundBy b r.1)
      ⊎ ((e : HttpError) × (r.0 ≡ err e))

  hold_free-Gives : (s : ℕ) (w : World) → Gives (hold_free env p s w) w
  unfolding hold_free insert_booking ◌>>=◌
  hold_free-Gives s w =
      elim (Option-cases
        (find_first (conflicts_at p.tenant_id s p.start_at p.end_at p.now) w.db.bookings)) [
          | inr (x, found) ↦ inl (ground arith)
          | inl free ↦ inr (
              inl (
                new_booking env p s (env.new_booking_id w.db),
                ground arith,
                (let h =
                      find_first-here (is_hold_key p.tenant_id p.idempotency_key) w.db.bookings
                        (new_booking env p s (env.new_booking_id w.db))
                        (ground (arith, str_eq_refl p.idempotency_key)) in
                    ground arith),
              ))
        ]

  rehold_found :
      (s : ℕ) (old : Booking) (w : World)
      → HasUniqueIds w.db.bookings
      → IsNew w
      → find_first (is_same_slot p s) w.db.bookings ≡ some old
      → find_first
          (is_hold_key p.tenant_id p.idempotency_key)
          (update_booking old.id (rehold (hold_until env p.now) p) w.db.bookings)
        ≡ some (rehold (hold_until env p.now) p old)
  unfolding update_booking
  rehold_found s old w u new found =
      let m = find_first-In (is_same_slot p s) w.db.bookings old found in
      find_first-update_many (has_id old.id) (is_hold_key p.tenant_id p.idempotency_key)
        (rehold (hold_until env p.now) p) w.db.bookings old new m (ground arith)
        (λ x mx same. u x old mx m (ground arith))
        (ground (
          arith,
          str_eq_refl p.idempotency_key,
          find_first-test (is_same_slot p s) w.db.bookings old found,
        ))

  try_create_hold-Gives :
      (s : ℕ) (w : World)
      → HasUniqueIds w.db.bookings
      → IsNew w
      → Gives (try_create_hold env p s w) w
  unfolding try_create_hold hold_slot ◌>>=◌
  try_create_hold-Gives s w u new =
      elim (Option-cases (find_first (is_same_slot p s) w.db.bookings)) [
        | inl no_row ↦ ground (arith, hold_free-Gives s w)
        | inr (old, found) ↦ elim (same_slot_reused env p s old w found) [
          | inl (live, same) ↦ inl same
          | inr (inl (dead, rival, refused)) ↦ inr (inr (unique_violation, ground arith))
          | inr (inr (dead, free, given, rows)) ↦ inr (
              inl (
                rehold (hold_until env p.now) p old,
                given,
                rw rows (rehold_found s old w u new found),
              ))
        ]
      ]

  -- A booking that an action returns is found by the key.
  abbrev Assigns : Action Booking → World → Type 0
  Assigns m w = (b : Booking) → (m w).0 ≡ ok b → IsFoundBy b (m w).1

  try_one-Assigns :
      (chosen : Bool) (busy : List ℕ) (i n : ℕ) (next : Action Booking) (o : Option ℕ) (w : World)
      → HasUniqueIds w.db.bookings
      → IsNew w
      → Assigns next w
      → Assigns (try_one env p chosen busy i n next o) w
  unfolding try_one found_or set_cursor ◌>>=◌
  try_one-Assigns chosen busy i n next none w u new rest b h = ground arith
  try_one-Assigns chosen busy i n next (some s) w u new rest b h =
      elim (try_create_hold-Gives s w u new) [
        | inl nothing ↦ ground (arith, rest b)
        | inr (inl (x, gave, found)) ↦ ground (arith, rest b)
        | inr (inr (e, refused)) ↦ ground (arith, rest b)
      ]

  assign-Assigns :
      (chosen : Bool) (busy ordered : List ℕ) (start left offset : ℕ) (w : World)
      → HasUniqueIds w.db.bookings
      → IsNew w
      → Assigns (assign env p chosen busy ordered start left offset) w
  unfolding assign ◌>>=◌
  assign-Assigns chosen busy ordered start zero offset w u new b h = ground arith
  assign-Assigns chosen busy ordered start (suc left) offset w u new b h =
      try_one-Assigns chosen busy _ _ _ _ w u new
        (assign-Assigns chosen busy ordered start left (suc offset) w u new) b h

  hold_new-Assigns :
      (chosen : Option ℕ) (busy : List ℕ) (w : World)
      → HasUniqueIds w.db.bookings
      → IsNew w
      → Assigns (hold_new env p chosen busy) w
  unfolding hold_new ◌>>=◌
  hold_new-Assigns chosen busy w u new b h = ground (
    arith,
    assign-Assigns (is_some chosen) busy (ids_of (candidates env p.tenant_id chosen w.db))
        (start_index (is_some chosen)
          (cursor_of (find_first (λ t. t.id == p.tenant_id) w.db.tenants))
          (length (candidates env p.tenant_id chosen w.db)))
        (length (candidates env p.tenant_id chosen w.db)) 0 w u new b,
  )

  -- When no two rows share an id, the booking that the transaction returns is the one that the key
  -- finds afterwards, whether it was found, made anew, or made of an old row.
  hold_tx-Assigns :
      (chosen : Option ℕ) (busy : List ℕ) (w : World)
      → HasUniqueIds w.db.bookings
      → Assigns (hold_tx env p chosen busy) w
  unfolding hold_tx hold_known ◌>>=◌
  hold_tx-Assigns chosen busy w u b h =
      elim (Option-cases (find_first (is_hold_key p.tenant_id p.idempotency_key) w.db.bookings)) [
        | inl new ↦ ground (arith, hold_new-Assigns chosen busy w u new b)
        | inr (x, found) ↦ ground arith
      ]

hold_tx_known :
    (env : Env) (p : HoldParams) (chosen : Option ℕ) (busy : List ℕ) (b : Booking) (w : World)
    → IsFoundBy env p b w
    → hold_tx env p chosen busy w ≡ (ok b, w)
unfolding hold_tx hold_known ◌>>=◌
hold_tx_known env p chosen busy b w found = ground arith

-- When no two rows share an id, and the transaction of a hold has returned a booking, the same
-- request returns the same booking again and changes nothing, in whatever environment, for whatever
-- salesperson it asks and whoever is busy.
pub hold_tx_idempotent :
    (env later : Env) (p : HoldParams) (chosen other : Option ℕ) (busy busy_later : List ℕ)
    (b : Booking) (w : World)
    → HasUniqueIds w.db.bookings
    → (hold_tx env p chosen busy w).0 ≡ ok b
    → hold_tx later p other busy_later (hold_tx env p chosen busy w).1
      ≡ (ok b, (hold_tx env p chosen busy w).1)
hold_tx_idempotent env later p chosen other busy busy_later b w u h =
    hold_tx_known later p other busy_later b _ (hold_tx-Assigns env p chosen busy w u b h)
