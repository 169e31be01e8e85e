-- ===== src/Store/Tables.antt =====
-- The tables and enums of apps/api/prisma/schema.prisma.
use booking_zoom_connect.Prelude.{ℕ, String, Bool, Option, List}

pub data BookingStatus : Type 0 where
  hold pending_verify confirmed canceled expired : BookingStatus

-- A day of `public_business_hours.weekly`; texts that the API takes apart are lists of
-- UTF-16 code units, and a missing text is a missing JSON field.
pub record DayConfig : Type 0 where
  pub closed : Bool
  pub open_at : Option (List ℕ)
  pub close_at : Option (List ℕ)
  pub breaks : List (Option (List ℕ) × Option (List ℕ))

pub data DayEntry : Type 0 where
  missing null_day : DayEntry
  day : DayConfig → DayEntry

-- A whole number of minutes; `negative n` is one less than minus `n`.
pub data Minutes : Type 0 where
  whole negative : ℕ → Minutes

-- The JSON of `public_business_hours`, with the fields that the API reads: `slot_minutes` an integer, the
-- other numbers natural.
pub record BusinessHours : Type 0 where
  pub slot_minutes : Option Minutes
  pub lead_time_minutes : Option ℕ
  pub buffer_minutes : Option ℕ
  pub max_days_ahead : Option ℕ
  pub closed_dates : List String
  pub weekly : String → DayEntry

pub data TenantStatus : Type 0 where
  tenant_pending tenant_active tenant_disabled : TenantStatus

pub record Tenant : Type 0 where
  pub id : ℕ
  pub slug : String
  pub status : TenantStatus
  pub m365_tenant_id : Option String
  pub public_booking_enabled : Bool
  pub public_timezone : String
  pub rr_cursor : ℕ
  pub public_business_hours : BusinessHours
  pub public_location_text : Option String

pub record Salesperson : Type 0 where
  pub id : ℕ
  pub tenant_id : ℕ
  pub graph_user_id : String
  pub display_name : String
  pub timezone : String
  pub active : Bool

pub record Customer : Type 0 where
  pub id : ℕ
  pub tenant_id : ℕ
  pub email : String
  pub name : Option String
  pub company : Option String

pub record Meeting : Type 0 where
  pub provider_meeting_id : String
  pub join_url : String

pub record GraphEvent : Type 0 where
  pub organizer_user_id : String
  pub event_id : String
  pub etag : String

pub record Hold : Type 0 where
  pub expires_at_utc : ℕ

pub record Booking : Type 0 where
  pub id : ℕ
  pub tenant_id : ℕ
  pub salesperson_id : ℕ
  pub customer_id : ℕ
  pub start_at_utc : ℕ
  pub end_at_utc : ℕ
  pub status : BookingStatus
  pub idempotency_key : String
  pub verify_token_jti : Option String
  pub public_confirm_token : Option String
  pub created_at : ℕ
  pub customer_reinvite_required : Bool
  pub customer_notify_required : Bool
  pub public_notes : Option (List ℕ)
  pub booking_mode : Option String
  pub held : Option Hold
  pub meeting : Option Meeting
  pub graph_event : Option GraphEvent

pub record IdempotencyKey : Type 0 where
  pub tenant_id : ℕ
  pub scope : String
  pub key : String

pub record GraphSubscription : Type 0 where
  pub id : ℕ
  pub tenant_id : ℕ
  pub salesperson_id : ℕ
  pub subscription_id : String
  pub resource : String
  pub expires_at : ℕ
  pub client_state : Option String

pub data EventType : Type 0 where
  rescheduled reinvited graph_patch_failed attended no_show : EventType
  event_deleted_by_sales event_moved_by_sales : EventType

pub record TrackingEvent : Type 0 where
  pub tenant_id : ℕ
  pub booking_id : ℕ
  pub type : EventType
  pub occurred_at_utc : ℕ

pub record Db : Type 0 where
  pub tenants : List Tenant
  pub salespersons : List Salesperson
  pub customers : List Customer
  pub bookings : List Booking
  pub idempotency_keys : List IdempotencyKey
  pub tracking_events : List TrackingEvent
