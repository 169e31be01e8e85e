-- ===== src/Tests/Staff.antt =====
-- The endpoints for the staff, a customer's link and a form, on the small tenant.
use booking_zoom_connect.Prelude.{
  ℕ, String, ◌≡◌, refl, ◌⊎◌, true, false, Option, none, some, List, [], ◌∷◌, In, ◌≤◌, length,
  find_first, find_many, codes, ◌*◌, ◌≢◌, list_eq, if◌then◌else◌, arith,
}
use booking_zoom_connect.Store.{
  Tenant, Booking, find_booking, update_booking, reinvited, graph_patch_failed,
}
use booking_zoom_connect.Service.{
  Env, World, ok, err, bad_request, find_tenant, ◌>>=◌, valid, cancel, drop_hold, check_idempotency,
}
use booking_zoom_connect.Reschedule.{set_reinvite, patch_etag}
use booking_zoom_connect.Internal.Listing.{
  natural, ListParams, Sorting, BookingItem, list_bookings_internal, parse_internal_date_param,
  parse_internal_limit, items_of, listed_rows, is_listed,
}
use booking_zoom_connect.Internal.Listing.Laws.{IsInRange, HasEvents, list_bookings_internal_lem}
use booking_zoom_connect.Internal.Reinvite.{reinvite_booking_internal}
use booking_zoom_connect.Internal.Reinvite.Laws.{reinvite_decides}
use booking_zoom_connect.Internal.Resend.{
  owed_rows, resend_limit, has_relations, resend_confirmation_emails,
}
use booking_zoom_connect.Internal.Resend.Laws.{IsSettled, resend_settles}
use booking_zoom_connect.Cancel.{cancel_booking, mark_canceled}
use booking_zoom_connect.Public.Links.{Site, link_payload, link_token}
use booking_zoom_connect.Public.Links.Laws.{link_cancels}
use booking_zoom_connect.Notes.{normalize_public_notes}
use booking_zoom_connect.WebForms.{
  Slot, FormData, normalize_optional_line, parse_slot_from_form_data,
}
use booking_zoom_connect.WebForms.Slots.{slot_value, is_plain, parse_slot_from_form_data-slot_value}
use booking_zoom_connect.WebForms.Lines.{some_line, lines_agree}
use booking_zoom_connect.Tests.Data.{day_ms, acme, booked, waiting, world_of, three, env}

abbrev unsorted : Sorting
unsorted = record { by_start = λ l. l; by_time = λ l. l }

abbrev all_bookings : ListParams
all_bookings = record { from = none; to = none; limit = natural 2; include_events = true }

abbrev bare_item : Booking → BookingItem
bare_item b = record {
  booking = b;
  customer = some (record { id = 1; tenant_id = 1; email = "c@x"; name = none; company = none });
  salesperson = some (record {
    id = 1;
    tenant_id = 1;
    graph_user_id = "sato";
    display_name = "Sato";
    timezone = "Asia/Tokyo";
    active = true;
  });
  join_url = none;
  events = some [];
}

abbrev two_items : List BookingItem
two_items = bare_item waiting ∷ bare_item booked ∷ []

two_listed :
    (list_bookings_internal env unsorted "acme" all_bookings (world_of three)).0 ≡ ok two_items
unfolding list_bookings_internal ◌>>=◌ find_first parse_internal_date_param parse_internal_limit
    items_of listed_rows find_many is_listed
two_listed = refl

list_bookings_internal_lem_example :
    (tenant : Tenant) × (from : Option ℕ) × (to : Option ℕ) × (find_tenant "acme"
        (world_of three).db
      ≡ some tenant)
    × (parse_internal_date_param env none "from must be a valid ISO-8601 datetime" ≡ ok from)
    × (parse_internal_date_param env none "to must be a valid ISO-8601 datetime" ≡ ok to)
    × (length two_items ≤ 500)
    × ((i : BookingItem)
        → In i two_items
        → IsInRange tenant.id from to (world_of three).db i.booking
          × HasEvents tenant.id true (world_of three).db i)
list_bookings_internal_lem_example =
    list_bookings_internal_lem env unsorted "acme" all_bookings (world_of three) two_items
      (λ l b. (λ m. m, λ m. m), λ l e. (λ m. m, λ m. m)) two_listed

abbrev with_graph_event : Booking
with_graph_event = record booked {
  graph_event = some (record { organizer_user_id = "sato"; event_id = "e1"; etag = "old" });
}

abbrev graph_world : World
graph_world = world_of (with_graph_event ∷ [])

abbrev answers : String → Option String
answers e = some "new"

reinvite_decides_example :
    ((etag : String) × (answers "e1" ≡ some etag)
      × ((reinvite_booking_internal env answers 50 "acme" 2 graph_world).0 ≡ ok tt)
      × ((reinvite_booking_internal env answers 50 "acme" 2 graph_world).1.db.bookings
          ≡ update_booking 2
              (set_reinvite false)
              (update_booking 2 (patch_etag etag) graph_world.db.bookings))
      × ((reinvite_booking_internal env answers 50 "acme" 2 graph_world).1.db.tracking_events
          ≡ record { tenant_id = 1; booking_id = 2; type = reinvited; occurred_at_utc = 50 }
            ∷ graph_world.db.tracking_events))
    ⊎ ((answers "e1" ≡ none)
        × ((reinvite_booking_internal env answers 50 "acme" 2 graph_world).0
            ≡ err (bad_request "Graph body patch failed"))
        × ((reinvite_booking_internal env answers 50 "acme" 2 graph_world).1.db.bookings
            ≡ update_booking 2 (set_reinvite true) graph_world.db.bookings)
        × ((reinvite_booking_internal env answers 50 "acme" 2 graph_world).1.db.tracking_events
            ≡ record {
              tenant_id = 1;
              booking_id = 2;
              type = graph_patch_failed;
              occurred_at_utc = 50;
            }
              ∷ graph_world.db.tracking_events))
unfolding find_first find_booking
reinvite_decides_example =
    reinvite_decides env answers 50 "acme" 2 acme with_graph_event graph_world refl refl refl refl
      refl

abbrev owed_world : World
owed_world = world_of (record booked { customer_notify_required = true } ∷ [])

resend_settles_example :
    ((n : ℕ) × ((resend_confirmation_emails env unsorted "acme" (natural 0) owed_world).0 ≡ ok n))
    × ((b : Booking)
        → In b (owed_rows unsorted 1 (resend_limit (natural 0)) owed_world.db)
        → has_relations b owed_world.db ≡ true
        → IsSettled b.id
            (resend_confirmation_emails env unsorted "acme" (natural 0) owed_world).1.db)
unfolding find_first
resend_settles_example =
    resend_settles env unsorted "acme" (natural 0) acme owed_world
      (record { graph = refl; set_up = refl; delivered = λ id. refl }) refl

abbrev site : Site
site = record {
  cancel_url = λ slug id token. token;
  reschedule_url = λ slug id token. token;
  link_jti = λ purpose id now. "jti";
}

abbrev link_env : Env
link_env = record env {
  check_token = λ now t. valid (link_payload site cancel 50 2 1 (4 * day_ms));
}

abbrev link : String
link = link_token link_env site cancel 50 2 1 (4 * day_ms)

link_cancels_example :
    ((cancel_booking link_env 100 "acme" 2 link "k" (world_of three)).0 ≡ ok "canceled")
    × ((cancel_booking link_env 100 "acme" 2 link "k" (world_of three)).1.db.bookings
        ≡ update_booking 2 drop_hold (update_booking 2 mark_canceled three))
    × (check_idempotency 1 "cancel" "k"
          (cancel_booking link_env 100 "acme" 2 link "k" (world_of three)).1.db
        ≡ true)
unfolding find_first find_booking check_idempotency
link_cancels_example =
    link_cancels link_env site 50 100 "acme" 2 "k" acme booked (world_of three)
      (record { some_text = refl; reads_back = λ now h. refl }) refl refl refl refl refl refl

-- Blanks, a line break and a tab.
abbrev typed : List ℕ
typed = codes "  two  people,\n\tfirst visit "

lines_agree_example :
    normalize_public_notes (some typed) ≡ some_line (normalize_optional_line (some typed) 500)
lines_agree_example = lines_agree typed

abbrev chosen : Slot
chosen = record {
  start_at_utc = codes "2026-03-01T01:00:00Z";
  end_at_utc = codes "2026-03-01T01:30:00Z";
}

abbrev filled_in : FormData
filled_in field = if list_eq field (codes "slot_choice") then some (slot_value chosen) else none

start_kept : chosen.start_at_utc ≢ []
start_kept e = ground arith

end_kept : chosen.end_at_utc ≢ []
end_kept e = ground arith

parse_slot_from_form_data-slot_value_example : parse_slot_from_form_data filled_in ≡ some chosen
unfolding is_plain
parse_slot_from_form_data-slot_value_example =
    parse_slot_from_form_data-slot_value filled_in chosen refl refl start_kept end_kept refl refl
      refl
