-- ===== src/CreateHold/Safety.antt =====
-- About `createHold` and `createHoldPublic` (apps/api/src/services/booking.service.ts) and the
-- calendar.
use booking_zoom_connect.Prelude.{arith, ℕ, List, String, refl, Option, none, some}
use booking_zoom_connect.Store.{Db, Booking, Salesperson, Customer}
use booking_zoom_connect.Service.{
  Env, Result, ok, err, plain_error, bad_request, unauthorized, forbidden, not_found, conflict,
  unique_violation, transaction, modify,
}
use booking_zoom_connect.Service.Keeps.{Keeps, keeps_rules, Keeps-transaction}
use booking_zoom_connect.Schedule.{IsSound, IsTame}
use booking_zoom_connect.Schedule.Rules.{sound_rules, other_tables-IsSound}
use booking_zoom_connect.Hold.{HoldRequest, HoldParams, hold_tx}
use booking_zoom_connect.Hold.Safety.{HasFreshIds, hold_tx-IsSound}
use booking_zoom_connect.CreateHold.{
  update_customer, insert_customer, upsert_known, upsert_customer, invalidate_assigned, hold_for,
  hold_done, hold_settled, create_hold, set_public_token, public_answer, create_hold_public,
}

update_customer-IsSound : (t : ℕ) (r : HoldRequest) → Keeps IsSound (modify (update_customer t r))
unfolding update_customer
update_customer-IsSound t r = other_tables-IsSound _ (λ db. refl)

insert_customer-IsSound :
    (id t : ℕ) (r : HoldRequest) → Keeps IsSound (modify (insert_customer id t r))
unfolding insert_customer
insert_customer-IsSound id t r = other_tables-IsSound _ (λ db. refl)

upsert_known-IsSound :
    (env : Env) (t : ℕ) (r : HoldRequest) (c : Option Customer)
    → Keeps IsSound (upsert_known env t r c)
unfolding upsert_known
upsert_known-IsSound env t r none = search (insert_customer-IsSound, keeps_rules)
upsert_known-IsSound env t r (some c) = search (update_customer-IsSound, keeps_rules)

invalidate_assigned-IsSound :
    (env : Env) (t start : ℕ) (s : Option Salesperson)
    → Keeps IsSound (invalidate_assigned env t start s)
unfolding invalidate_assigned
invalidate_assigned-IsSound env t start none = search keeps_rules
invalidate_assigned-IsSound env t start (some s) = search keeps_rules

set_public_token-IsTame : (token : String) → IsTame (set_public_token token)
set_public_token-IsTame token b = ground arith

public_answer-IsSound :
    (env : Env) (b : Booking) (o : Option String) → Keeps IsSound (public_answer env b o)
unfolding public_answer
public_answer-IsSound env b o = search (sound_rules, set_public_token-IsTame) depth 9

hold_settled-IsSound :
    (env : Env) (tenant : ℕ) (key : String) (start : ℕ) (available : List Salesperson)
    (r : Result Booking)
    → Keeps IsSound (hold_settled env tenant key start available r)
unfolding hold_settled hold_done
hold_settled-IsSound env tenant key start available (ok b) =
    search (keeps_rules, invalidate_assigned-IsSound) depth 9
hold_settled-IsSound env tenant key start available (err unique_violation) = search keeps_rules
hold_settled-IsSound env tenant key start available (err (plain_error m)) = search keeps_rules
hold_settled-IsSound env tenant key start available (err (bad_request m)) = search keeps_rules
hold_settled-IsSound env tenant key start available (err (unauthorized m)) = search keeps_rules
hold_settled-IsSound env tenant key start available (err (forbidden m)) = search keeps_rules
hold_settled-IsSound env tenant key start available (err (not_found m)) = search keeps_rules
hold_settled-IsSound env tenant key start available (err (conflict m)) = search keeps_rules

module _ (env : Env) (fresh : HasFreshIds env)
    (others : (db : Db) → IsSound db → IsSound (env.others db)) where
  tx-IsSound :
      (p : HoldParams) (chosen : Option ℕ) (busy : List ℕ)
      → Keeps IsSound (transaction (hold_tx env p chosen busy))
  tx-IsSound p chosen busy = Keeps-transaction _ (hold_tx-IsSound env fresh p chosen busy)

  pub create_hold-IsSound :
      (now : ℕ) (slug : String) (r : HoldRequest) (key : String)
      → Keeps IsSound (create_hold env now slug r key)
  unfolding create_hold hold_for upsert_customer
  create_hold-IsSound now slug r key =
      search (sound_rules, tx-IsSound, upsert_known-IsSound, hold_settled-IsSound, others) depth 30

  -- If the database gives new ids and other requests keep a sound calendar sound, so does creating a
  -- hold through the public endpoint, whether it returns or throws.
  pub create_hold_public-IsSound :
      (now : ℕ) (slug : String) (r : HoldRequest) (key : String)
      → Keeps IsSound (create_hold_public env now slug r key)
  unfolding create_hold_public
  create_hold_public-IsSound now slug r key =
      search (keeps_rules, create_hold-IsSound, public_answer-IsSound) depth 9
