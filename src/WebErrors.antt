-- ===== src/WebErrors.antt =====
-- The classification of API errors on the public pages
-- (apps/web/app/public/[tenantSlug]/errors.ts). The parse of the response, JSON.parse and the zod
-- schema, is a parameter; texts that are taken apart are lists of character codes, of which the
-- change of case is modelled for ASCII letters, the only ones that the searched texts have.
pub mod Laws
use booking_zoom_connect.Prelude.{
  ℕ, String, Bool, true, false, ◌&&◌, ◌||◌, Option, none, some, List, [], ◌∷◌, ◌++◌, ◌+◌, ◌-◌, leb,
  ◌==◌, codes, list_eq, if◌then◌else◌,
}
use booking_zoom_connect.Notes.{trim_start, trim_end}

pub data PublicErrorCode : Type 0 where
  invalid_input invalid_token expired slot_unavailable already_processed : PublicErrorCode
  config_error request_failed not_found unknown : PublicErrorCode

-- The pages that ask.
pub data PublicErrorContext : Type 0 where
  book availability confirm cancel reschedule : PublicErrorContext

pub data MessageField : Type 0 where
  no_message : MessageField
  one : List ℕ → MessageField
  many : List (List ℕ) → MessageField

-- What the schema lets through.
pub record Payload : Type 0 where
  pub message : MessageField
  pub error : Option (List ℕ)
  pub code : Option (List ℕ)

pub record PublicApiError : Type 0 where
  pub code : PublicErrorCode
  pub message : String

abbrev pub join_comma : List (List ℕ) → List ℕ
join_comma [] = []
join_comma (m ∷ []) = m
join_comma (m ∷ n ∷ ms) = m ++ (codes ", " ++ join_comma (n ∷ ms))

abbrev pub or_empty : Option (List ℕ) → List ℕ
or_empty none = []
or_empty (some s) = s

-- `normalizeApiMessage`
abbrev pub normalize_message : MessageField → Option (List ℕ) → List ℕ
normalize_message no_message error = or_empty error
normalize_message (one m) error = m
normalize_message (many ms) error = join_comma ms

-- `extractApiError`: the message and the code.
unfoldable pub extract_api_error : List ℕ → Option Payload → List ℕ × List ℕ
extract_api_error raw none = (raw, [])
extract_api_error raw (some p) = (normalize_message p.message p.error, or_empty p.code)

abbrev pub is_availability : PublicErrorContext → Bool
is_availability availability = true
is_availability _ = false

-- `mapErrorCodeToMessage`
unfoldable pub message_of : PublicErrorCode → PublicErrorContext → String
message_of invalid_input c = "入力内容を確認してください。"
message_of invalid_token c = "リンク情報が無効です。"
message_of expired c =
    if is_availability c then "表示中の空き枠情報の有効期限が切れました。更新してください。" else "有効期限が切れました。最初からやり直してください。"
message_of slot_unavailable c =
    if is_availability c then "空き枠情報を更新してください。" else "選択した時間枠は利用できません。別の時間枠を選択してください。"
message_of already_processed c = "同じ操作が短時間に重複しました。少し待ってから再試行してください。"
message_of config_error c = "サーバー設定が不足しています。管理者へ連絡してください。"
message_of request_failed c = "一時的に処理できません。時間をおいて再度お試しください。"
message_of not_found c = if is_availability c then "対象の公開予約ページが見つかりません。" else "対象データが見つかりません。"
message_of unknown c = "処理に失敗しました。"

abbrev pub is_one_of : List ℕ → List String → Bool
is_one_of s [] = false
is_one_of s (t ∷ ts) = list_eq s (codes t) || is_one_of s ts

-- `mapKnownApiCode`
unfoldable pub map_known_api_code : List ℕ → Option PublicErrorCode
map_known_api_code code =
    if is_one_of code ("INVALID_INPUT" ∷ "VALIDATION_ERROR" ∷ "BAD_REQUEST" ∷ [])
    then some invalid_input
    else if is_one_of code ("INVALID_TOKEN" ∷ [])
    then some invalid_token
    else if is_one_of code ("HOLD_EXPIRED" ∷ "TOKEN_EXPIRED" ∷ "EXPIRED" ∷ [])
    then some expired
    else if is_one_of code ("SLOT_UNAVAILABLE" ∷ "SLOT_ALREADY_TAKEN" ∷ [])
    then some slot_unavailable
    else if is_one_of code
        ("ALREADY_PROCESSED" ∷ "IDEMPOTENCY_REPLAY" ∷ "IDEMPOTENCY_CONFLICT" ∷ [])
    then some already_processed
    else if is_one_of code ("CONFIG_ERROR" ∷ [])
    then some config_error
    else if is_one_of code ("NOT_FOUND" ∷ "TENANT_NOT_FOUND" ∷ "BOOKING_NOT_FOUND" ∷ [])
    then some not_found
    else none

abbrev pub lower : List ℕ → List ℕ
lower [] = []
lower (c ∷ s) = (if leb b'A' c && leb c b'Z' then c + 32 else c) ∷ lower s

abbrev pub upper : List ℕ → List ℕ
upper [] = []
upper (c ∷ s) = (if leb b'a' c && leb c b'z' then c - 32 else c) ∷ upper s

abbrev pub begins : List ℕ → List ℕ → Bool
begins [] s = true
begins (c ∷ p) [] = false
begins (c ∷ p) (d ∷ s) = c == d && begins p s

-- `includes`
unfoldable pub includes : List ℕ → List ℕ → Bool
includes p [] = begins p []
includes p (c ∷ s) = begins p (c ∷ s) || includes p s

abbrev pub has_any : List ℕ → List String → Bool
has_any s [] = false
has_any s (t ∷ ts) = includes (codes t) s || has_any s ts

-- `fromMessage`
unfoldable pub from_message : List ℕ → Option PublicErrorCode
from_message message =
    let m = lower message in
    if has_any m ("invalid" ∷ "required" ∷ "validation" ∷ [])
    then some invalid_input
    else if has_any m ("token" ∷ [])
    then some invalid_token
    else if has_any m ("expired" ∷ "期限" ∷ "deadline passed" ∷ [])
    then some expired
    else if has_any m ("slot already taken" ∷ "slot unavailable" ∷ "already booked" ∷ [])
    then some slot_unavailable
    else if has_any m ("already used" ∷ "already processed" ∷ "already confirmed" ∷ [])
    then some already_processed
    else if has_any m ("not found" ∷ [])
    then some not_found
    else none

-- `fromStatus`
unfoldable pub from_status : ℕ → PublicErrorCode
from_status status =
    if status == 400 || status == 422
    then invalid_input
    else if status == 401 || status == 403
    then invalid_token
    else if status == 404
    then not_found
    else if status == 409
    then slot_unavailable
    else if leb 500 status
    then request_failed
    else unknown

abbrev pub first_known :
    Option PublicErrorCode → Option PublicErrorCode → PublicErrorCode → PublicErrorCode
first_known (some c) m s = c
first_known none (some c) s = c
first_known none none s = s

-- The code that `classifyPublicApiError` settles on.
unfoldable pub classified : ℕ → List ℕ → List ℕ → PublicErrorCode
classified status message code =
    first_known (map_known_api_code (upper (trim_end (trim_start code)))) (from_message message)
      (from_status status)

-- `classifyPublicApiError`, where `parse` is the parse of the response.
unfoldable pub classify_public_api_error :
    (List ℕ → Option Payload) → ℕ → List ℕ → PublicErrorContext → PublicApiError
classify_public_api_error parse status raw context =
    let (message, code) = extract_api_error raw (parse raw) in
    record {
      code = classified status message code;
      message = message_of (classified status message code) context;
    }

-- The text of a code.
abbrev pub code_text : PublicErrorCode → String
code_text invalid_input = "invalid_input"
code_text invalid_token = "invalid_token"
code_text expired = "expired"
code_text slot_unavailable = "slot_unavailable"
code_text already_processed = "already_processed"
code_text config_error = "config_error"
code_text request_failed = "request_failed"
code_text not_found = "not_found"
code_text unknown = "unknown"

abbrev pub supported : List PublicErrorCode
supported =
    invalid_input ∷ invalid_token ∷ expired ∷ slot_unavailable ∷ already_processed ∷ config_error
    ∷ request_failed ∷ not_found ∷ unknown ∷ []

abbrev pub find_code : List ℕ → List PublicErrorCode → PublicErrorCode
find_code s [] = unknown
find_code s (c ∷ cs) = if list_eq s (codes (code_text c)) then c else find_code s cs

-- `messageFromErrorCode`; a missing code is the empty text.
unfoldable pub message_from_error_code : List ℕ → PublicErrorContext → String
message_from_error_code code context =
    message_of (find_code (trim_end (trim_start code)) supported) context
