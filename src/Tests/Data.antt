-- ===== src/Tests/Data.antt =====
-- One tenant, one salesperson, three bookings: one that waits for its confirmation, one confirmed for
-- another day, and one whose hold ran out long ago. Instants are small numbers of milliseconds.
use booking_zoom_connect.Prelude.{
  ℕ, suc, String, true, false, Option, none, some, List, [], ◌∷◌, In, arith, ◌+◌, ◌*◌, ◌<◌, str_eq,
  if◌then◌else◌,
}
use booking_zoom_connect.Store.{
  hold, pending_verify, confirmed, missing, whole, BusinessHours, tenant_active, Tenant,
  Salesperson, Customer, Booking, Db,
}
use booking_zoom_connect.Service.{
  Env, World, TokenCheck, TokenPurpose, verify, cancel, reschedule, valid, invalid,
}
use booking_zoom_connect.Schedule.{IsSound}
use booking_zoom_connect.Hold.{HoldRequest, HoldParams}
use booking_zoom_connect.Hold.Safety.{HasFreshIds}
use booking_zoom_connect.Reschedule.Safety.{IsSwept}

abbrev pub day_ms : ℕ
day_ms = 86_400_000

abbrev pub hours : BusinessHours
hours = record {
  slot_minutes = some (whole 30);
  lead_time_minutes = none;
  buffer_minutes = none;
  max_days_ahead = none;
  closed_dates = [];
  weekly = λ _. missing;
}

abbrev pub acme : Tenant
acme = record {
  id = 1;
  slug = "acme";
  status = tenant_active;
  m365_tenant_id = some "m365";
  public_booking_enabled = true;
  public_timezone = "Asia/Tokyo";
  rr_cursor = 0;
  public_business_hours = hours;
  public_location_text = none;
}

abbrev pub sato : Salesperson
sato = record {
  id = 1;
  tenant_id = 1;
  graph_user_id = "sato";
  display_name = "Sato";
  timezone = "Asia/Tokyo";
  active = true;
}

abbrev pub client : Customer
client = record { id = 1; tenant_id = 1; email = "c@x"; name = none; company = none }

abbrev pub waiting : Booking
waiting = record {
  id = 1;
  tenant_id = 1;
  salesperson_id = 1;
  customer_id = 1;
  start_at_utc = 3 * day_ms;
  end_at_utc = 3 * day_ms + 1000;
  status = pending_verify;
  idempotency_key = "hold-1";
  verify_token_jti = some "jti-1";
  public_confirm_token = none;
  created_at = 0;
  customer_reinvite_required = false;
  customer_notify_required = false;
  public_notes = none;
  booking_mode = some "online";
  held = some (record { expires_at_utc = 9000 });
  meeting = none;
  graph_event = none;
}

abbrev pub booked : Booking
booked = record waiting {
  id = 2;
  start_at_utc = 4 * day_ms;
  end_at_utc = 4 * day_ms + 1000;
  status = confirmed;
  idempotency_key = "hold-2";
  verify_token_jti = none;
  held = none;
}

-- Its hold ran out at 10.
abbrev pub stale : Booking
stale = record waiting {
  id = 3;
  start_at_utc = 5 * day_ms;
  end_at_utc = 5 * day_ms + 1000;
  status = hold;
  idempotency_key = "hold-3";
  verify_token_jti = none;
  public_confirm_token = some "public";
  held = some (record { expires_at_utc = 10 });
}

abbrev pub db_of : List Booking → Db
db_of bs = record {
  tenants = acme ∷ [];
  salespersons = sato ∷ [];
  customers = client ∷ [];
  bookings = bs;
  idempotency_keys = [];
  tracking_events = [];
}

abbrev pub world_of : List Booking → World
world_of bs = record { db = db_of bs; availability_cache = []; calls = [] }

abbrev pub three : List Booking
three = waiting ∷ booked ∷ stale ∷ []

abbrev token_for : TokenPurpose → ℕ → TokenCheck
token_for purpose id =
    valid (record { exp = 9; jti = "jti-1"; tenant_id = 1; booking_id = id; purpose = purpose })

abbrev pub next_id : List Booking → ℕ
next_id [] = 0
next_id (b ∷ bs) = suc (b.id + next_id bs)

abbrev instant : String → Option ℕ
instant s =
    if str_eq s "6" then some (6 * day_ms) else if str_eq s "7" then some (7 * day_ms) else none

abbrev pub env : Env
env = record {
  graph_enabled = true;
  hold_ttl_minutes = 10;
  sign = λ p. p.jti;
  check_token = λ now t.
      if str_eq t "verify"
      then token_for verify 1
      else if str_eq t "cancel"
      then token_for cancel 2
      else if str_eq t "move"
      then token_for reschedule 2
      else invalid;
  parse_iso = instant;
  local_ymd = λ _ _. "2026-01-01";
  uuid_text = λ _. "id";
  busy_slots = λ _ _ _ _. none;
  created_event = λ _. none;
  mail_sent = λ _. true;
  patched_etag = λ _. none;
  new_public_token = "fresh";
  new_booking_id = λ db. next_id db.bookings;
  new_customer_id = λ _. 2;
  by_display_name = λ l. l;
  others = λ db. db;
}

id_below_next : (bs : List Booking) (o : Booking) → In o bs → o.id < next_id bs
id_below_next [] o m = absurd m
id_below_next (b ∷ bs) o m = ground (arith, id_below_next bs o)

pub env-HasFreshIds : HasFreshIds env
env-HasFreshIds db o m = ground (arith, id_below_next db.bookings o m)

pub three-IsSound : IsSound (db_of three)
three-IsSound = record {
  unique = λ a b ma mb e. ground arith;
  disjoint = λ a b ma mb ne ca cb clash. ground arith;
}

pub two-IsSwept : IsSwept 100 (db_of (waiting ∷ booked ∷ []))
two-IsSwept = record {
  sound = record {
    unique = λ a b ma mb e. ground arith;
    disjoint = λ a b ma mb ne ca cb clash. ground arith;
  };
  no_stale = λ b m h. ground arith;
}

abbrev pub request : HoldRequest
request = record {
  salesperson_id = none;
  start_at = "6";
  end_at = "7";
  booking_mode = none;
  public_notes = none;
  email = "c@x";
  name = none;
  company = none;
}

abbrev pub params : HoldParams
params = record {
  tenant_id = 1;
  customer_id = 1;
  start_at = 6 * day_ms;
  end_at = 7 * day_ms;
  idempotency_key = "hold-4";
  now = 100;
  booking_mode = "online";
  public_notes = none;
}
