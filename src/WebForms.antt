-- ===== src/WebForms.antt =====
-- The forms of the public pages: apps/web/app/public/[tenantSlug]/helpers.ts. Texts are lists of UTF-16
-- code units. A field of a form that is missing or a file is `none`. What the code takes from JavaScript,
-- luxon, the crypto module and the schema of types.ts is a parameter.
pub mod Lines
pub mod Slots
use booking_zoom_connect.Prelude.{
  ℕ, Bool, true, false, not, ◌&&◌, ◌||◌, Option, none, some, List, [], ◌∷◌, ◌++◌, ◌+◌, ◌*◌, ◌/◌,
  leb, ◌==◌, if◌then◌else◌, take, codes,
}
use booking_zoom_connect.Notes.{join_lines, trim_start, trim_end, collapse_spaces}
use booking_zoom_connect.Availability.Clock.{is_digit}

pub record Slot : Type 0 where
  pub start_at_utc : List ℕ
  pub end_at_utc : List ℕ

-- `BookRouteInput`, and the fields that are given back with an error.
pub record BookRouteInput : Type 0 where
  pub tenant_slug : List ℕ
  pub date : List ℕ
  pub customer_name : List ℕ
  pub customer_email : List ℕ
  pub booking_mode : List ℕ
  pub public_notes : List ℕ
  pub start_at_utc : List ℕ
  pub end_at_utc : List ℕ

pub record NormalizedFields : Type 0 where
  pub date : List ℕ
  pub name : List ℕ
  pub email : List ℕ
  pub public_notes : List ℕ
  pub booking_mode : List ℕ

pub record Web : Type 0 where
  pub to_lower : List ℕ → List ℕ
  -- `isExistingYmd`: luxon reads the date and writes it back the same.
  pub is_existing_ymd : List ℕ → Bool
  pub sha256_hex : List ℕ → List ℕ
  pub number_text : ℕ → List ℕ
  -- `BookRouteInputSchema.safeParse`
  pub safe_parse : BookRouteInput → Option BookRouteInput

abbrev pub trim : List ℕ → List ℕ
trim s = trim_end (trim_start s)

-- `/^\d{4}-\d{2}-\d{2}$/`
abbrev pub is_valid_ymd : List ℕ → Bool
is_valid_ymd (a ∷ b ∷ c ∷ d ∷ x ∷ e ∷ f ∷ y ∷ g ∷ h ∷ []) =
    is_digit a
    && is_digit b
    && is_digit c
    && is_digit d
    && x == b'-'
    && is_digit e
    && is_digit f
    && y == b'-'
    && is_digit g
    && is_digit h
is_valid_ymd _ = false

unfoldable pub normalize_ymd : Web → List ℕ → List ℕ → List ℕ
normalize_ymd web value fallback =
    if not (is_valid_ymd (trim value))
    then fallback
    else if not (web.is_existing_ymd (trim value))
    then fallback
    else trim value

-- `typeof value === "string" ? value : ""`
abbrev pub raw_text : Option (List ℕ) → List ℕ
raw_text none = []
raw_text (some s) = s

unfoldable pub normalize_text : Option (List ℕ) → ℕ → List ℕ
normalize_text value max_len = take max_len (trim (raw_text value))

unfoldable pub normalize_optional_line : Option (List ℕ) → ℕ → List ℕ
normalize_optional_line value max_len =
    take max_len (trim (collapse_spaces false (join_lines (raw_text value))))

unfoldable pub normalize_email : Web → Option (List ℕ) → List ℕ
normalize_email web value = web.to_lower (normalize_text value 320)

unfoldable pub normalize_booking_mode : Web → Option (List ℕ) → List ℕ
normalize_booking_mode web value = web.to_lower (normalize_text value 24)

-- The parts of `split("|")` before and after the first bar.
abbrev pub at_bar : ℕ → List ℕ × Option (List ℕ) → List ℕ → List ℕ × Option (List ℕ)
at_bar c (part, rest) s = if c == b'|' then ([], some s) else (c ∷ part, rest)

unfoldable pub split_bar : List ℕ → List ℕ × Option (List ℕ)
split_bar [] = ([], none)
split_bar (c ∷ s) = at_bar c (split_bar s) s

-- A slot of two texts, neither empty after trimming.
abbrev pub slot_of : List ℕ → List ℕ → Option Slot
slot_of [] end = none
slot_of (c ∷ s) [] = none
slot_of (c ∷ s) (d ∷ e) = some (record { start_at_utc = c ∷ s; end_at_utc = d ∷ e })

abbrev pub second_part : Option (List ℕ) → List ℕ
second_part none = []
second_part (some rest) = (split_bar rest).0

-- `parseSlotChoice`; an empty part stays empty when it is trimmed.
unfoldable pub parse_slot_choice : Option (List ℕ) → Option Slot
parse_slot_choice none = none
parse_slot_choice (some value) =
    let (start, rest) = split_bar value in slot_of (trim start) (trim (second_part rest))

abbrev pub slot_or : Option Slot → Option Slot → Option Slot
slot_or (some s) other = some s
slot_or none other = other

-- `formData.get`
abbrev pub FormData : Type 0
FormData = List ℕ → Option (List ℕ)

unfoldable pub parse_slot_from_form_data : FormData → Option Slot
parse_slot_from_form_data form =
    slot_or
      (slot_of (normalize_text (form (codes "start_at_utc")) 64)
        (normalize_text (form (codes "end_at_utc")) 64))
      (parse_slot_choice (form (codes "slot_choice")))

-- `Math.floor(nowMs / 1000 / bucketSeconds)`, for a positive number of seconds
abbrev pub time_bucket : ℕ → ℕ → ℕ
time_bucket bucket_seconds now = now / (1000 * bucket_seconds)

-- `join("|")`
abbrev pub join_bar : List (List ℕ) → List ℕ
join_bar [] = []
join_bar (s ∷ []) = s
join_bar (s ∷ t ∷ rest) = s ++ (b'|' ∷ join_bar (t ∷ rest))

unfoldable pub create_hold_idempotency_key :
    Web → ℕ → ℕ → List ℕ → List ℕ → List ℕ → List ℕ → List ℕ → List ℕ
create_hold_idempotency_key web bucket_seconds now slug email start end mode =
    codes "hold:"
    ++ take 40 (
        web.sha256_hex (
          join_bar (
            codes "hold"
            ∷ web.to_lower (trim slug)
            ∷ web.to_lower (trim email)
            ∷ start
            ∷ end
            ∷ mode
            ∷ web.number_text (time_bucket bucket_seconds now)
            ∷ [])))

unfoldable pub create_verify_idempotency_key : Web → ℕ → ℕ → List ℕ → List ℕ → List ℕ
create_verify_idempotency_key web bucket_seconds now booking email =
    codes "verify:"
    ++ take 40 (
        web.sha256_hex (
          join_bar (
            codes "verify-email"
            ∷ trim booking
            ∷ web.to_lower (trim email)
            ∷ web.number_text (time_bucket bucket_seconds now)
            ∷ [])))

unfoldable pub normalized_fields : Web → List ℕ → FormData → NormalizedFields
normalized_fields web fallback form = record {
  date = normalize_ymd web (normalize_text (form (codes "date")) 10) fallback;
  name = normalize_text (form (codes "customer_name")) 120;
  email = normalize_email web (form (codes "customer_email"));
  public_notes = normalize_optional_line (form (codes "public_notes")) 500;
  booking_mode = normalize_booking_mode web (form (codes "booking_mode"));
}

abbrev pub parsed_of : Web → List ℕ → NormalizedFields → Option Slot → Option BookRouteInput
parsed_of web slug n none = none
parsed_of web slug n (some s) = web.safe_parse (record {
  tenant_slug = slug;
  date = n.date;
  customer_name = n.name;
  customer_email = n.email;
  booking_mode = n.booking_mode;
  public_notes = n.public_notes;
  start_at_utc = s.start_at_utc;
  end_at_utc = s.end_at_utc;
})

-- `parseBookRouteInput`; no input is `ok: false`.
unfoldable pub parse_book_route_input :
    Web → List ℕ → List ℕ → FormData → Option BookRouteInput × NormalizedFields
parse_book_route_input web slug fallback form =
    let n = normalized_fields web fallback form in
    (parsed_of web slug n (parse_slot_from_form_data form), n)
