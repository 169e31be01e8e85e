-- ===== src/Expiry/Laws.antt =====
-- About `expireHolds` (apps/api/src/services/booking.service.ts): the rows after a sweep.
use booking_zoom_connect.Prelude.{
  ℕ, ◌≡◌, inl, inr, true, false, List, [], ◌∷◌, In, refl, arith, find_many, find_many-In,
  find_many-test, In-find_many, update_many, In-update_many, update_many-In_kept, Bool-cases,
}
use booking_zoom_connect.Store.Keys.{HasUniqueIds}
use booking_zoom_connect.Store.{Booking, Db, is_held}
use booking_zoom_connect.Service.{World, expire, drop_hold, ◌>>=◌}
use booking_zoom_connect.Service.Keeps.{Keeps, keeps_rules, Keeps-modify}
use booking_zoom_connect.Schedule.{IsSound, many-IsSound}
use booking_zoom_connect.Schedule.Rules.{drop_hold-IsTame, expire-IsTame}
use booking_zoom_connect.Expiry.{is_run_out, has_id_in, is_swept, sweep, expire_found, expire_holds}

has_id_in_of_In : (ids : List Booking) (b : Booking) → In b ids → has_id_in ids b ≡ true
has_id_in_of_In [] b m = absurd m
has_id_in_of_In (x ∷ ids) b m = ground (arith, has_id_in_of_In ids b)

-- A row whose id is listed is a listed row, up to its id.
listed :
    (ids : List Booking) (b : Booking)
    → has_id_in ids b ≡ true
    → (x : Booking) × In x ids × (x.id ≡ b.id)
listed [] b h = cc
listed (x ∷ ids) b h = elim (Bool-cases (has_id_in ids b)) [
  | inl later ↦ let (y, m, e) = listed ids b later in (y, inr m, e)
  | inr here ↦ (x, inl refl, ground arith)
]

sweep-IsSound : (ids : List Booking) (db : Db) → IsSound db → IsSound (sweep ids db)
unfolding sweep
sweep-IsSound ids db s =
    many-IsSound (has_id_in ids) drop_hold _ drop_hold-IsTame
      (many-IsSound (is_swept ids) expire db expire-IsTame s)

expire_found-IsSound : (ids : List Booking) → Keeps IsSound (expire_found ids)
unfolding expire_found ◌>>=◌
expire_found-IsSound [] = search keeps_rules
expire_found-IsSound (x ∷ ids) =
    search (keeps_rules, Keeps-modify (sweep (x ∷ ids)) (sweep-IsSound (x ∷ ids))) depth 20

-- The sweep keeps a sound calendar sound.
pub expire_holds-IsSound : (now : ℕ) → Keeps IsSound (expire_holds now)
unfolding expire_holds
expire_holds-IsSound now = search (keeps_rules, expire_found-IsSound)

-- After the sweep no held row is left of those listed.
sweep_leaves :
    (ids : List Booking) (db : Db) (a : Booking)
    → In a (sweep ids db).bookings
    → is_held a.status ≡ true
    → In a db.bookings × (has_id_in ids a ≡ false)
unfolding sweep
sweep_leaves ids db a m h =
    elim (In-update_many (has_id_in ids) drop_hold (update_many (is_swept ids) expire db.bookings) a
      m) [
        | inl (old, kept) ↦ elim (In-update_many (is_swept ids) expire db.bookings a old) [
          | inl (older, _) ↦ (older, kept)
          | inr (c, _, _, e) ↦ absurd (ground arith)
        ]
        | inr (b, old, hit, e) ↦ elim (In-update_many (is_swept ids) expire db.bookings b old) [
          | inl (older, kept) ↦ absurd (ground arith)
          | inr (c, _, _, ec) ↦ absurd (ground arith)
        ]
      ]

-- A row that is not listed is not touched.
sweep_keeps :
    (ids : List Booking) (db : Db) (a : Booking)
    → In a db.bookings
    → has_id_in ids a ≡ false
    → In a (sweep ids db).bookings
unfolding sweep
sweep_keeps ids db a m h =
    update_many-In_kept (has_id_in ids) drop_hold (update_many (is_swept ids) expire db.bookings) a
      (update_many-In_kept (is_swept ids) expire db.bookings a m (ground arith)) h

found_leaves :
    (ids : List Booking) (w : World) (a : Booking)
    → In a (expire_found ids w).1.db.bookings
    → is_held a.status ≡ true
    → In a w.db.bookings × (has_id_in ids a ≡ false)
unfolding expire_found ◌>>=◌
found_leaves [] w a m h = (m, refl)
found_leaves (x ∷ ids) w a m h = sweep_leaves (x ∷ ids) w.db a m h

found_keeps :
    (ids : List Booking) (w : World) (a : Booking)
    → In a w.db.bookings
    → has_id_in ids a ≡ false
    → In a (expire_found ids w).1.db.bookings
unfolding expire_found ◌>>=◌
found_keeps [] w a m h = m
found_keeps (x ∷ ids) w a m h = sweep_keeps (x ∷ ids) w.db a m h

-- After the sweep no booking is held by a hold that had run out at the time of the sweep.
pub expire_holds_sweeps :
    (now : ℕ) (w : World) (a : Booking)
    → In a (expire_holds now w).1.db.bookings
    → is_run_out now a ≡ false
unfolding expire_holds ◌>>=◌
expire_holds_sweeps now w a m = elim (Bool-cases (is_run_out now a)) [
  | inr fresh ↦ fresh
  | inl stale ↦
      let (old, kept) = found_leaves _ w a m (ground arith) in
      absurd (
        ground
          (arith, has_id_in_of_In _ a (In-find_many (is_run_out now) w.db.bookings a old stale)))
]

-- When no two rows share an id, a row that is not held by a hold that has run out stays in the
-- table as it is.
pub expire_holds_keeps :
    (now : ℕ) (w : World) (a : Booking)
    → HasUniqueIds w.db.bookings
    → In a w.db.bookings
    → is_run_out now a ≡ false
    → In a (expire_holds now w).1.db.bookings
unfolding expire_holds ◌>>=◌
expire_holds_keeps now w a u m fresh =
    found_keeps _ w a m
      (elim (Bool-cases (has_id_in (find_many (is_run_out now) w.db.bookings) a)) [
        | inr no_id ↦ no_id
        | inl some_id ↦
            let (x, mx, e) = listed _ a some_id in
            let same : x ≡ a = u x a (find_many-In (is_run_out now) w.db.bookings x mx) m e in
            absurd (ground (arith, find_many-test (is_run_out now) w.db.bookings x mx))
      ])
