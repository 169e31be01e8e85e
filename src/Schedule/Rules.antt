-- ===== src/Schedule/Rules.antt =====
-- About the writes that the methods share (apps/api/src/services/booking.service.ts) and the
-- calendar.
use booking_zoom_connect.Prelude.{
  ◌≡◌, ℕ, String, Bool, arith, Bool-cases, inl, inr, true, str_eq_refl, find_first-here,
}
use booking_zoom_connect.Store.{Db, Booking, GraphEvent, IdempotencyKey}
use booking_zoom_connect.Service.{
  Env, drop_hold, expire, clear_public_token, modify_booking, modify_slot, modify,
  record_idempotency, check_idempotency, is_idempotency_key,
}
use booking_zoom_connect.Service.Keeps.{Keeps, keeps_rules, Keeps-modify}
use booking_zoom_connect.Service.PostConfirm.{post_confirm, with_event, notify}
use booking_zoom_connect.Service.PostConfirm.Keeps.{post_confirm-Keeps}
use booking_zoom_connect.Schedule.{IsSound, IsTame, tame-IsSound, same_bookings-IsSound}

pub drop_hold-IsTame : IsTame drop_hold
drop_hold-IsTame b = ground arith

pub expire-IsTame : IsTame expire
expire-IsTame b = ground arith

pub clear_public_token-IsTame : IsTame clear_public_token
clear_public_token-IsTame b = ground arith

pub with_event-IsTame : (e : GraphEvent) → IsTame (with_event e)
with_event-IsTame e b = ground arith

pub notify-IsTame : (r : Bool) → IsTame (notify r)
notify-IsTame r b = ground arith

pub modify_booking-IsSound :
    (id : ℕ) (f : Booking → Booking) → IsTame f → Keeps IsSound (modify_booking id f)
unfolding modify_booking
modify_booking-IsSound id f t = Keeps-modify _ (λ db s. tame-IsSound id f db t s)

pub modify_slot-IsSound :
    (b : Booking) (f : Booking → Booking) → IsTame f → Keeps IsSound (modify_slot b f)
unfolding modify_slot
modify_slot-IsSound b f t = search (keeps_rules, modify_booking-IsSound, t) depth 9

pub bookings-record_idempotency :
    (tenant : ℕ) (scope key : String) (db : Db)
    → (record_idempotency tenant scope key db).bookings ≡ db.bookings
unfolding record_idempotency
bookings-record_idempotency tenant scope key db = ground arith

-- A recorded key is found again.
pub check-record_idempotency :
    (tenant : ℕ) (scope key : String) (db : Db)
    → check_idempotency tenant scope key (record_idempotency tenant scope key db) ≡ true
unfolding record_idempotency check_idempotency
check-record_idempotency tenant scope key db =
    elim (Bool-cases (check_idempotency tenant scope key db)) [
      | inl known ↦ ground arith
      | inr new ↦
          let row : IdempotencyKey = record { tenant_id = tenant; scope = scope; key = key } in
          ground (
            arith,
            find_first-here (is_idempotency_key tenant scope key) db.idempotency_keys row
                (ground (arith, str_eq_refl scope, str_eq_refl key)),
          )
    ]

pub record_idempotency-IsSound :
    (tenant : ℕ) (scope key : String) → Keeps IsSound (modify (record_idempotency tenant scope key))
record_idempotency-IsSound tenant scope key =
    Keeps-modify _
      (λ db s. same_bookings-IsSound db _ (bookings-record_idempotency tenant scope key db) s)

pub modify-IsSound :
    (f : Db → Db) → ((db : Db) → IsSound db → IsSound (f db)) → Keeps IsSound (modify f)
modify-IsSound f k = Keeps-modify f k

pub with_event-IsSound :
    (id : ℕ) (e : GraphEvent) → Keeps IsSound (modify_booking id (with_event e))
with_event-IsSound id e = modify_booking-IsSound id _ (with_event-IsTame e)

pub notify-IsSound : (id : ℕ) (r : Bool) → Keeps IsSound (modify_booking id (notify r))
notify-IsSound id r = modify_booking-IsSound id _ (notify-IsTame r)

pub post_confirm-IsSound :
    (env : Env) (slug : String) (id : ℕ) → Keeps IsSound (post_confirm env slug id)
post_confirm-IsSound = post_confirm-Keeps with_event-IsSound notify-IsSound

pub ruleset sound_rules = (
  keeps_rules, modify_booking-IsSound, modify_slot-IsSound, record_idempotency-IsSound,
  modify-IsSound, drop_hold-IsTame, expire-IsTame, clear_public_token-IsTame,
)

-- Changes of other tables.
pub other_tables-IsSound :
    (f : Db → Db) → ((db : Db) → (f db).bookings ≡ db.bookings) → Keeps IsSound (modify f)
other_tables-IsSound f same = Keeps-modify f (λ db s. same_bookings-IsSound db (f db) (same db) s)
