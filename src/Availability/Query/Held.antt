-- ===== src/Availability/Query/Held.antt =====
-- About `getAvailability` and the transaction of `createHold`
-- (apps/api/src/services/booking.service.ts).
use booking_zoom_connect.Prelude.{
  ℕ, String, ◌≡◌, refl, ◌⊎◌, inl, inr, false, Option, none, some, List, [], ◌∷◌, ◌≤◌, ◌<◌, In,
  arith, length, find_first, find_many-test, ◌↔◌, sym, subst,
}
use booking_zoom_connect.Store.{Db, Tenant, Booking, Salesperson, conflicts_at}
use booking_zoom_connect.Service.{Env, World, Slot, ok, find_tenant}
use booking_zoom_connect.Busy.{parse_business_hours, count_of}
use booking_zoom_connect.Hold.{
  HoldParams, candidates, is_candidate, ids_of, has_busy, hold_tx, is_hold_key,
}
use booking_zoom_connect.Availability.Context.{Calendar, Context}
use booking_zoom_connect.Availability.Context.Day.{build_context-IsOpenDay}
use booking_zoom_connect.Availability.Query.{zone_of, cache_key, cache_get, get_availability}
use booking_zoom_connect.Availability.Query.Free.{
  get_availability_offers, IsCached, IsOffered, IsAvailable,
}
use booking_zoom_connect.Hold.Given.{IsHeldOrRefused, free_slot-IsGiven, assign_first, hold_chosen}

-- The database's order of the rows changes no row.
abbrev pub KeepsRows : Env → Type 0
KeepsRows env = (l : List Salesperson) (s : Salesperson) → In s (env.by_display_name l) ↔ In s l

later_conflict :
    (tenant s start end now later : ℕ) (b : Booking)
    → now ≤ later
    → conflicts_at tenant s start end now b ≡ false
    → conflicts_at tenant s start end later b ≡ false
unfolding conflicts_at
later_conflict tenant s start end now later b after free = ground arith

candidate_id :
    (env : Env) (tenant id : ℕ) (db : Db) (s : Salesperson)
    → KeepsRows env
    → In s (candidates env tenant (some id) db)
    → s.id ≡ id
unfolding candidates
candidate_id env tenant id db s rows m =
    ground
      (arith, find_many-test (is_candidate tenant (some id)) db.salespersons s ((rows _ s).0 m))

same_candidates :
    (env : Env) (tenant : ℕ) (chosen : Option ℕ) (db later : Db)
    → later.salespersons ≡ db.salespersons
    → candidates env tenant chosen later ≡ candidates env tenant chosen db
unfolding candidates
same_candidates env tenant chosen db later e = rw e

first_of :
    (l : List Salesperson) (s : Salesperson)
    → In s l
    → (x : Salesperson) × (rest : List Salesperson) × (l ≡ x ∷ rest)
first_of [] s m = absurd m
first_of (x ∷ rest) s m = (x, rest, refl)

available_is_held :
    (env : Env) (p : HoldParams) (id : ℕ) (busy : List ℕ) (tenant : Tenant) (now : ℕ)
    (ctx : Context) (slot : Slot) (s : Salesperson) (w later : World)
    → KeepsRows env
    → In s (candidates env tenant.id (some id) w.db)
    → IsAvailable env now tenant ctx w.db slot s
    → slot.start_at_utc < slot.end_at_utc
    → later.db.bookings ≡ w.db.bookings
    → later.db.salespersons ≡ w.db.salespersons
    → p.tenant_id ≡ tenant.id
    → p.start_at ≡ slot.start_at_utc
    → p.end_at ≡ slot.end_at_utc
    → now ≤ p.now
    → find_first (is_hold_key p.tenant_id p.idempotency_key) later.db.bookings ≡ none
    → has_busy id busy ≡ false
    → IsHeldOrRefused p id later.db (hold_tx env p (some id) busy later).0
available_is_held env p id busy tenant now ctx slot s w later rows ms free pos bs ss et es ee after
      new idle =
    let (x, rest, those) = first_of (candidates env tenant.id (some id) w.db) s ms in
    let same : s.id ≡ id = candidate_id env tenant.id id w.db s rows ms in
    let first : x.id ≡ id = candidate_id env tenant.id id w.db x rows (rw those (inl refl)) in
    let given = free_slot-IsGiven env p id later (ground arith) (λ o m.
      later_conflict p.tenant_id id p.start_at p.end_at now p.now o after
        (ground (arith, free.no_conflict o (rw (sym bs) m)))) in
    let those' : candidates env p.tenant_id (some id) later.db ≡ x ∷ rest =
      ground (arith, same_candidates env tenant.id (some id) w.db later.db ss) in
    subst (λ r. IsHeldOrRefused p id later.db r)
      (sym (hold_chosen env p id busy x rest later new those' first))
      (assign_first env p busy (ids_of rest) id 0 (length rest) later idle given)

-- What becomes of a slot that the query offers for a salesperson: when the query's answer does not come
-- from the cache, the slot length is at least one minute, and since then no row of bookings or salespersons has
-- changed, the transaction of a hold for that slot and salesperson, at that instant or later, under a
-- new idempotency key and with the salesperson not found busy, gives a hold of the very slot; or the
-- database refuses it, and then a row that has the very slot is still held, though its hold has run out or
-- is missing.
pub offered_slot_is_held :
    (env : Env) (cal : Calendar) (now : ℕ) (slug date : String) (id : ℕ) (tenant : Tenant)
    (w later : World) (l : List Slot) (slot : Slot) (p : HoldParams) (busy : List ℕ)
    → KeepsRows env
    → find_tenant slug w.db ≡ some tenant
    → cache_get (cache_key tenant.id (some id) date) w.availability_cache ≡ none
    → 0 < count_of (parse_business_hours tenant.public_business_hours).slot_minutes
    → (get_availability env cal now slug (some id) date w).0 ≡ ok (some l)
    → In slot l
    → later.db.bookings ≡ w.db.bookings
    → later.db.salespersons ≡ w.db.salespersons
    → p.tenant_id ≡ tenant.id
    → p.start_at ≡ slot.start_at_utc
    → p.end_at ≡ slot.end_at_utc
    → now ≤ p.now
    → find_first (is_hold_key p.tenant_id p.idempotency_key) later.db.bookings ≡ none
    → has_busy id busy ≡ false
    → IsHeldOrRefused p id later.db (hold_tx env p (some id) busy later).0
offered_slot_is_held env cal now slug date id tenant w later l slot p busy rows known miss long
      answer m bs ss et es ee after new idle =
    let (t, known', offer) =
      get_availability_offers env cal now slug (some id) date w l slot answer m in
    let same : t ≡ tenant = ground arith in
    let offer' : IsCached now (cache_key tenant.id (some id) date) w slot
        ⊎ IsOffered env cal now tenant (some id) date (candidates env tenant.id (some id) w.db) w.db
            slot =
      subst
        (λ (t : Tenant).
          IsCached now (cache_key t.id (some id) date) w slot
          ⊎ IsOffered env cal now t (some id) date (candidates env t.id (some id) w.db) w.db slot)
        same offer in
    elim offer' [
      | inl (e, hit, alive, me) ↦ absurd (ground arith)
      | inr (ctx, s, day, ms, mt, free) ↦
          (let (u, d, valid, open_day) =
              build_context-IsOpenDay cal now tenant.public_business_hours date
                (zone_of (some id) (candidates env tenant.id (some id) w.db) tenant) ctx day in
            let (k, a, b, c, lead, misses) = (open_day.slots_exact slot).0 ms in
            available_is_held env p id busy tenant now ctx slot s w later rows mt free
              (ground arith) bs ss et es ee after new idle)
    ]
