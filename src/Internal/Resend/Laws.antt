-- ===== src/Internal/Resend/Laws.antt =====
-- About `resendConfirmationEmails` (apps/api/src/services/booking.service.ts).
use booking_zoom_connect.Prelude.{
  ℕ, suc, String, ◌≡◌, refl, inl, inr, true, false, some, List, [], ◌∷◌, In, arith, Bool-cases,
  subst, sym,
}
use booking_zoom_connect.Store.{Db, Tenant, Booking, update_booking}
use booking_zoom_connect.Store.Keys.{In-update_booking}
use booking_zoom_connect.Service.{
  Env, World, Result, ok, ◌>>=◌, is_blank, find_tenant, modify_booking, send_mail,
}
use booking_zoom_connect.Service.PostConfirm.{send_confirmation_email, notify}
use booking_zoom_connect.Internal.Listing.{Limit, Sorting}
use booking_zoom_connect.Internal.Resend.{
  resend_limit, owed_rows, has_relations, resend_each, resend_confirmation_emails,
}

-- No mail is owed for the booking with the id.
abbrev pub IsSettled : ℕ → Db → Type 0
IsSettled id db = (o : Booking) → In o db.bookings → o.id ≡ id → o.customer_notify_required ≡ false

-- Mails go out.
pub record Sends (env : Env) (tenant : Tenant) : Type 0 where
  pub graph : env.graph_enabled ≡ true
  pub set_up : is_blank tenant.m365_tenant_id ≡ false
  pub delivered : (id : ℕ) → env.mail_sent id ≡ true

abbrev mailed : Booking → World → World
mailed b w = record w {
  db = record w.db { bookings = update_booking b.id (notify false) w.db.bookings };
  calls = send_mail b.id ∷ w.calls;
}

send_mails :
    (env : Env) (tenant : Tenant) (b : Booking) (w : World)
    → Sends env tenant
    → send_confirmation_email env tenant b w ≡ (ok tt, mailed b w)
unfolding send_confirmation_email modify_booking ◌>>=◌
send_mails env tenant b w s = ground (arith, s.graph, s.set_up, s.delivered b.id)

mailed-IsSettled : (b : Booking) (w : World) → IsSettled b.id (mailed b w).db
mailed-IsSettled b w o m e = elim (In-update_booking b.id (notify false) w.db.bookings o m) [
  | inl (old, other) ↦ absurd (other e)
  | inr (c, old, same, new) ↦ ground arith
]

mailed_keeps_IsSettled :
    (b : Booking) (id : ℕ) (w : World) → IsSettled id w.db → IsSettled id (mailed b w).db
mailed_keeps_IsSettled b id w h o m e =
    elim (In-update_booking b.id (notify false) w.db.bookings o m) [
      | inl (old, other) ↦ h o old e
      | inr (c, old, same, new) ↦ ground arith
    ]

-- What the loop does with a list of rows: the mails that were not owed stay so, and those of the rows
-- with relations are settled.
abbrev Settles : Result ℕ × World → List Booking → World → Type 0
Settles r bs w =
    ((n : ℕ) × (r.0 ≡ ok n))
    × ((id : ℕ) → IsSettled id w.db → IsSettled id r.1.db)
    × ((b : Booking) → In b bs → has_relations b w.db ≡ true → IsSettled b.id r.1.db)

module _ (env : Env) (tenant : Tenant) (s : Sends env tenant) where
  resend_row :
      (b : Booking) (bs : List Booking) (w : World)
      → Settles (resend_each env tenant bs (mailed b w)) bs (mailed b w)
      → has_relations b w.db ≡ true
      → Settles (resend_each env tenant (b ∷ bs) w) (b ∷ bs) w
  unfolding resend_each ◌>>=◌
  resend_row b bs w ((n, e), kept, done) complete =
      let mail = send_mails env tenant b w s in
      let after : (resend_each env tenant (b ∷ bs) w).1
          ≡ (resend_each env tenant bs (mailed b w)).1 =
        ground (arith, mail) in
      (
        (suc n, ground (arith, mail)),
        λ id h.
            subst (λ (x : World). IsSettled id x.db) (sym after)
              (kept id (mailed_keeps_IsSettled b id w h)),
        λ c m rel.
            subst (λ (x : World). IsSettled c.id x.db) (sym after)
              (elim m [
                | inl here ↦ kept c.id (
                    subst (λ (x : Booking). IsSettled x.id (mailed b w).db) (sym here)
                      (mailed-IsSettled b w))
                | inr later ↦ done c later rel
              ]),
      )

  resend_each-Settles : (bs : List Booking) (w : World) → Settles (resend_each env tenant bs w) bs w
  unfolding resend_each ◌>>=◌
  resend_each-Settles [] w = ((0, refl), λ id h. h, λ b m rel. absurd m)
  resend_each-Settles (b ∷ bs) w = elim (Bool-cases (has_relations b w.db)) [
    | inl complete ↦ resend_row b bs w (resend_each-Settles bs (mailed b w)) complete
    | inr missing ↦
        (let ((n, e), kept, done) = resend_each-Settles bs w in
          let same : resend_each env tenant (b ∷ bs) w ≡ resend_each env tenant bs w =
            ground arith in
          subst (λ (r : Result ℕ × World). Settles r (b ∷ bs) w) (sym same)
            (
              (n, e),
              kept,
              λ c m rel. elim m [ inl here ↦ ground arith | inr later ↦ done c later rel ],
            ))
  ]

-- When Graph is switched on and set up for the tenant and mails are delivered, the method returns, and no
-- mail is owed any more for any booking that it took up and that has its customer and salesperson.
pub resend_settles :
    (env : Env) (sorting : Sorting) (slug : String) (limit : Limit) (tenant : Tenant) (w : World)
    → Sends env tenant
    → find_tenant slug w.db ≡ some tenant
    → ((n : ℕ) × ((resend_confirmation_emails env sorting slug limit w).0 ≡ ok n))
      × ((b : Booking)
          → In b (owed_rows sorting tenant.id (resend_limit limit) w.db)
          → has_relations b w.db ≡ true
          → IsSettled b.id (resend_confirmation_emails env sorting slug limit w).1.db)
unfolding resend_confirmation_emails ◌>>=◌
resend_settles env sorting slug limit tenant w s known =
    let rows = owed_rows sorting tenant.id (resend_limit limit) w.db in
    let (ends, kept, done) = resend_each-Settles env tenant s rows w in
    let same : resend_confirmation_emails env sorting slug limit w ≡ resend_each env tenant rows w =
      ground arith in
    subst
      (λ (r : Result ℕ × World).
        ((n : ℕ) × (r.0 ≡ ok n))
        × ((b : Booking) → In b rows → has_relations b w.db ≡ true → IsSettled b.id r.1.db))
      (sym same) (ends, done)
