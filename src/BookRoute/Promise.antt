-- ===== src/BookRoute/Promise.antt =====
-- About what the page promises to a customer who books, apps/web/app/public/[tenantSlug]/book/route.ts.
use booking_zoom_connect.Prelude.{
  ℕ, ◌≡◌, ◌≢◌, refl, true, Option, none, some, List, [], ◌∷◌, arith, Bool-cases, inl, inr,
}
use booking_zoom_connect.WebForms.{BookRouteInput}
use booking_zoom_connect.WebApi.{Answer, returned, thrown, RequestResult}
use booking_zoom_connect.BookRoute.{
  Desk, verification_sent, is_ok, verify_answered, verify_request, hold_read, read_hold,
  hold_answered, hold_request, book_outcome,
}

-- A request was answered, and with a status of success.
abbrev pub IsAccepted : Answer RequestResult → RequestResult → Type 0
IsAccepted answer res = (answer ≡ returned res) × (is_ok res ≡ true)

verify_sent :
    {J : Type 0} (desk : Desk J) (input : BookRouteInput) (answer : Answer RequestResult)
    (date : List ℕ)
    → verify_answered desk input answer ≡ verification_sent date
    → (res : RequestResult) × IsAccepted answer res
verify_sent desk input (thrown fault) date h = ground arith
verify_sent desk input (returned res) date h = elim (Bool-cases (is_ok res)) [
  | inl accepted ↦ (res, (refl, accepted))
  | inr not_ok ↦ ground arith
]

-- The mail was asked for, of the hold with an id that the answer gave.
abbrev pub IsAsked : {J : Type 0} → Desk J → List ℕ → BookRouteInput → ℕ → Answer (List ℕ) → Type 0
IsAsked desk slug input later answer =
    (id : List ℕ) × ((answer ≡ returned id)
      × ((id ≢ [])
          × ((res : RequestResult) × IsAccepted (verify_request desk slug input later id) res)))

hold_read_sent :
    {J : Type 0} (desk : Desk J) (slug : List ℕ) (input : BookRouteInput) (later : ℕ)
    (answer : Answer (List ℕ)) (date : List ℕ)
    → hold_read desk slug input later answer ≡ verification_sent date
    → IsAsked desk slug input later answer
hold_read_sent desk slug input later (thrown fault) date h = ground arith
hold_read_sent desk slug input later (returned []) date h = ground arith
hold_read_sent desk slug input later (returned (c ∷ id)) date h = (
  c ∷ id,
  (
    refl,
    (
      (λ e. ground arith),
      verify_sent desk input (verify_request desk slug input later (c ∷ id)) date h,
    ),
  ),
)

hold_sent :
    {J : Type 0} (desk : Desk J) (slug : List ℕ) (input : BookRouteInput) (later : ℕ)
    (answer : Answer RequestResult) (date : List ℕ)
    → hold_answered desk slug input later answer ≡ verification_sent date
    → (res : RequestResult) × (IsAccepted answer res
        × IsAsked desk slug input later (read_hold desk res))
hold_sent desk slug input later (thrown fault) date h = ground arith
hold_sent desk slug input later (returned res) date h = elim (Bool-cases (is_ok res)) [
  | inl accepted ↦ (
    res,
    (
      (refl, accepted),
      hold_read_sent desk slug input later (read_hold desk res) date (ground arith),
    ),
  )
  | inr not_ok ↦ ground arith
]

-- If the page tells a customer that the mail for the verification was sent, then the input was valid, the
-- API accepted the hold, its answer was read and named the hold, and the API accepted the request for
-- the mail of that hold.
pub book_outcome-IsAsked :
    {J : Type 0} (desk : Desk J) (slug : List ℕ) (now later : ℕ) (input : Option BookRouteInput)
    (date : List ℕ)
    → book_outcome desk slug now later input ≡ verification_sent date
    → (valid : BookRouteInput) × ((input ≡ some valid)
        × ((res : RequestResult) × (IsAccepted (hold_request desk slug valid now) res
              × IsAsked desk slug valid later (read_hold desk res))))
unfolding book_outcome
book_outcome-IsAsked desk slug now later none date h = ground arith
book_outcome-IsAsked desk slug now later (some input) date h =
    (input, (refl, hold_sent desk slug input later (hold_request desk slug input now) date h))
