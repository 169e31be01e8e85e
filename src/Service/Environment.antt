-- ===== src/Service/Environment.antt =====
-- The outside world of a request: configuration, and the code that is not the repository's
-- (jsonwebtoken, luxon, Microsoft Graph, randomness) as functions.
use booking_zoom_connect.Prelude.{ℕ, String, Bool, Option, List}
use booking_zoom_connect.Store.{Db, GraphEvent, Salesperson}
use booking_zoom_connect.Service.Monad.{Slot}

-- apps/api/src/utils/jwt.ts
pub data TokenPurpose : Type 0 where
  verify cancel reschedule : TokenPurpose

abbrev pub purpose_eq : TokenPurpose → TokenPurpose → Bool
purpose_eq verify verify = Bool.true
purpose_eq cancel cancel = Bool.true
purpose_eq reschedule reschedule = Bool.true
purpose_eq _ _ = Bool.false

pub record TokenPayload : Type 0 where
  pub exp : ℕ
  pub jti : String
  pub tenant_id : ℕ
  pub booking_id : ℕ
  pub purpose : TokenPurpose

-- What `jwt.verify` does with a text: the payload, a TokenExpiredError, or another error.
pub data TokenCheck : Type 0 where
  valid : TokenPayload → TokenCheck
  token_expired invalid : TokenCheck

pub record Env : Type 0 where
  -- `process.env.GRAPH_ENABLED !== "0"`
  pub graph_enabled : Bool
  pub hold_ttl_minutes : ℕ
  pub sign : TokenPayload → String
  pub check_token : ℕ → String → TokenCheck
  pub parse_iso : String → Option ℕ
  -- `DateTime.fromJSDate(t).setZone(tz).toFormat("yyyy-LL-dd")`
  pub local_ymd : String → ℕ → String
  pub uuid_text : ℕ → String
  -- `graph.getBusySlots`; no answer is an exception.
  pub busy_slots : String → String → ℕ → ℕ → Option (List Slot)
  -- `graph.createEvent` and `mailSender.send` for a booking.
  pub created_event : ℕ → Option GraphEvent
  pub mail_sent : ℕ → Bool
  pub patched_etag : String → Option String
  -- `randomBytes(16).toString("hex")`, and the ids that the database gives to new rows.
  pub new_public_token : String
  pub new_booking_id : Db → ℕ
  pub new_customer_id : Db → ℕ
  -- `orderBy: { display_name: "asc" }`, in the database's collation.
  pub by_display_name : List Salesperson → List Salesperson
  -- What other requests commit between a method's first reads and its transaction.
  pub others : Db → Db
