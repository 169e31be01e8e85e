-- ===== src/Reschedule/Safety.antt =====
-- About `rescheduleBooking` (apps/api/src/services/booking.service.ts), the calendar, and holds that
-- have run out.
use booking_zoom_connect.Prelude.{
  subst, ℕ, String, ◌≡◌, ◌≢◌, inl, inr, true, false, Bool, Option, none, some, In, arith, refl,
  find_first, find_first-In, find_first-test, find_first-none, Option-cases, find_first,
}
use booking_zoom_connect.Store.{
  Booking, Db, Tenant, confirmed, is_held, update_booking, hold_after, EventType,
}
use booking_zoom_connect.Store.Keys.{In-update_booking}
use booking_zoom_connect.Service.{Env, World, transaction, modify_booking, modify}
use booking_zoom_connect.Service.Keeps.{Keeps, keeps_rules, Keeps-modify}
use booking_zoom_connect.Schedule.{
  IsSound, Clashes, IsTame, update-HasUniqueIds, update-NoDoubleBooking, tame-IsSound,
}
use booking_zoom_connect.Schedule.{same_bookings-IsSound}
use booking_zoom_connect.Schedule.Rules.{bookings-record_idempotency}
use booking_zoom_connect.Service.{record_idempotency}
use booking_zoom_connect.Reschedule.{
  move_to, add_event, set_reinvite, patch_etag, patched, patch_event_times, in_the_way, blocks,
  reschedule_tx, patch_if, reschedule_same, reschedule_moved, reschedule_loaded, reschedule_booking,
}
use booking_zoom_connect.Reschedule.Outcome.{reschedule_tx_outcome}

-- Every held booking has a hold that has not run out.
abbrev pub NoStaleHolds : ℕ → Db → Type 0
NoStaleHolds now db =
    (b : Booking) → In b db.bookings → is_held b.status ≡ true → hold_after now b.held ≡ true

update-NoStaleHolds :
    (now id : ℕ) (f : Booking → Booking) (db : Db)
    → ((b : Booking) → ((f b).status ≡ b.status) × ((f b).held ≡ b.held))
    → NoStaleHolds now db
    → NoStaleHolds now (record db { bookings = update_booking id f db.bookings })
update-NoStaleHolds now id f db same ns a m h = elim (In-update_booking id f db.bookings a m) [
  | inl (old, _) ↦ ns a old h
  | inr (b, old, _, e) ↦ ground (arith, ns b old, same b)
]

pub record IsSwept (now : ℕ) (db : Db) : Type 0 where
  pub sound : IsSound db
  pub no_stale : NoStaleHolds now db

-- A row that the query returns and that does not block is held by a hold that has run out.
unblocked-stale :
    (now start end : ℕ) (b x : Booking) (db : Db)
    → NoStaleHolds now db
    → In x db.bookings
    → in_the_way start end b x ≡ true
    → blocks now (some x) ≡ false
    → ⊥
unfolding in_the_way
unblocked-stale now start end b x db ns mx hit free = ground (arith, ns x mx)

-- Without stale holds, a move that is not blocked has nothing in its way.
nothing_in_the_way :
    (now start end : ℕ) (b o : Booking) (db : Db)
    → NoStaleHolds now db
    → blocks now (find_first (in_the_way start end b) db.bookings) ≡ false
    → In o db.bookings
    → in_the_way start end b o ≡ false
nothing_in_the_way now start end b o db ns free m =
    elim (Option-cases (find_first (in_the_way start end b) db.bookings)) [
      | inl nothing ↦ find_first-none _ db.bookings o nothing m
      | inr (x, found) ↦ absurd (
          unblocked-stale now start end b x db ns (find_first-In _ db.bookings x found)
            (find_first-test (in_the_way start end b) db.bookings x found)
            (subst (λ q. blocks now q ≡ false) found free))
    ]

not_in_the_way_sound :
    (start end : ℕ) (b o : Booking)
    → in_the_way start end b o ≡ false
    → o.id ≢ b.id
    → o.status ≡ confirmed
    → ¬ Clashes (move_to start end b) o
unfolding in_the_way
not_in_the_way_sound start end b o h ne c clash = absurd (ground arith)

move_to-IsSwept :
    (now start end : ℕ) (b : Booking) (db : Db)
    → In b db.bookings
    → blocks now (find_first (in_the_way start end b) db.bookings) ≡ false
    → IsSwept now db
    → IsSwept now (record db { bookings = update_booking b.id (move_to start end) db.bookings })
move_to-IsSwept now start end b db mb free s = record {
  sound = record {
    unique = update-HasUniqueIds b.id (move_to start end) db.bookings (λ _. refl) s.sound.unique;
    disjoint =
        update-NoDoubleBooking b.id (move_to start end) db.bookings (λ _. refl)
          (λ r o mr ir mo no co _ clash.
            not_in_the_way_sound start end b o
              (nothing_in_the_way now start end b o db s.no_stale free mo) no co
              (let e : r ≡ b = s.sound.unique r b mr mb ir in
                subst (λ x. Clashes (move_to start end x) o) e clash))
          s.sound.disjoint;
  };
  no_stale = update-NoStaleHolds now b.id (move_to start end) db (λ x. (refl, refl)) s.no_stale;
}

same_bookings-IsSwept :
    (now : ℕ) (db db' : Db) → db'.bookings ≡ db.bookings → IsSwept now db → IsSwept now db'
same_bookings-IsSwept now db db' e s = record {
  sound = same_bookings-IsSound db db' e s.sound;
  no_stale = rw e s.no_stale;
}

reschedule_tx-IsSwept :
    (now id start end : ℕ) → Keeps (IsSwept now) (transaction (reschedule_tx now id start end))
reschedule_tx-IsSwept now id start end = record { at = at' }
  where
    at' :
        (w : World)
        → IsSwept now w.db
        → IsSwept now (transaction (reschedule_tx now id start end) w).1.db
    at' w s = elim (reschedule_tx_outcome now id start end w) [
      | inl same ↦ rw same s
      | inr (b, m) ↦
          same_bookings-IsSwept now _ _ m.wrote
            (move_to-IsSwept now start end b w.db m.found m.free s)
    ]

modify_booking-IsSwept :
    (now id : ℕ) (f : Booking → Booking)
    → IsTame f
    → ((b : Booking) → ((f b).status ≡ b.status) × ((f b).held ≡ b.held))
    → Keeps (IsSwept now) (modify_booking id f)
unfolding modify_booking
modify_booking-IsSwept now id f t same = Keeps-modify _ λ db s. record {
  sound = tame-IsSound id f db t s.sound;
  no_stale = update-NoStaleHolds now id f db same s.no_stale;
}

set_reinvite-IsSwept :
    (now id : ℕ) (r : Bool) → Keeps (IsSwept now) (modify_booking id (set_reinvite r))
set_reinvite-IsSwept now id r =
    modify_booking-IsSwept now id _ (λ b. ground arith) (λ b. (refl, refl))

patch_etag-IsSwept :
    (now id : ℕ) (etag : String) → Keeps (IsSwept now) (modify_booking id (patch_etag etag))
patch_etag-IsSwept now id etag =
    modify_booking-IsSwept now id _ (λ b. ground arith) (λ b. (refl, refl))

add_event-IsSwept :
    (now tenant id : ℕ) (type : EventType) (at : ℕ)
    → Keeps (IsSwept now) (add_event tenant id type at)
unfolding add_event
add_event-IsSwept now tenant id type at =
    Keeps-modify _ (λ db s. same_bookings-IsSwept now db _ refl s)

record_idempotency-IsSwept :
    (now tenant : ℕ) (scope key : String)
    → Keeps (IsSwept now) (modify (record_idempotency tenant scope key))
record_idempotency-IsSwept now tenant scope key =
    Keeps-modify _
      (λ db s. same_bookings-IsSwept now db _ (bookings-record_idempotency tenant scope key db) s)

patched-IsSwept :
    (now at : ℕ) (t : Tenant) (b : Booking) (o : Option String)
    → Keeps (IsSwept now) (patched at t b o)
unfolding patched
patched-IsSwept now at t b none = search (keeps_rules, set_reinvite-IsSwept, add_event-IsSwept)
patched-IsSwept now at t b (some e) = search (keeps_rules, set_reinvite-IsSwept, patch_etag-IsSwept)

modify-IsSwept :
    (now : ℕ) (f : Db → Db)
    → ((db : Db) → IsSwept now db → IsSwept now (f db))
    → Keeps (IsSwept now) (modify f)
modify-IsSwept now f k = Keeps-modify f k

ruleset swept_rules = (
  keeps_rules, patched-IsSwept, record_idempotency-IsSwept, reschedule_tx-IsSwept, modify-IsSwept,
)

-- If the calendar is sound and no booking is held by a hold that has run out, and other requests keep
-- it so, then the same is so after a call of `rescheduleBooking`, whether it returns or throws.
pub reschedule_booking-IsSwept :
    (env : Env) (now : ℕ) (slug : String) (id : ℕ) (token new_start new_end key : String)
    → ((db : Db) → IsSwept now db → IsSwept now (env.others db))
    → Keeps (IsSwept now) (reschedule_booking env now slug id token new_start new_end key)
unfolding reschedule_booking reschedule_loaded reschedule_same reschedule_moved patch_if
    patch_event_times
reschedule_booking-IsSwept env now slug id token new_start new_end key others =
    search (swept_rules, others) depth 50
