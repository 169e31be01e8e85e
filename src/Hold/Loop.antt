-- ===== src/Hold/Loop.antt =====
-- About the transaction of `createHold` (apps/api/src/services/booking.service.ts): what the helper for
-- one salesperson keeps, the transaction keeps.
use booking_zoom_connect.Prelude.{ℕ, zero, suc, Bool, Option, none, some, List}
use booking_zoom_connect.Store.{Booking, Db}
use booking_zoom_connect.Service.{Env, Action, modify}
use booking_zoom_connect.Service.Keeps.{Keeps, keeps_rules}
use booking_zoom_connect.Hold.{
  HoldParams, try_create_hold, set_cursor, found_or, try_one, assign, hold_new, hold_known, hold_tx,
}

module _ {I : Db → Type 0} (env : Env) (p : HoldParams)
    (cursor_kept : (t c : ℕ) → Keeps I (modify (set_cursor t c)))
    (given_kept : (s : ℕ) → Keeps I (try_create_hold env p s)) where
  found_or-Keeps :
      (chosen : Bool) (t c : ℕ) (next : Action Booking) (o : Option Booking)
      → Keeps I next
      → Keeps I (found_or chosen t c next o)
  unfolding found_or
  found_or-Keeps chosen t c next none k = k
  found_or-Keeps chosen t c next (some b) k = search (cursor_kept, keeps_rules) depth 9

  try_one-Keeps :
      (chosen : Bool) (busy : List ℕ) (i n : ℕ) (next : Action Booking) (o : Option ℕ)
      → Keeps I next
      → Keeps I (try_one env p chosen busy i n next o)
  unfolding try_one
  try_one-Keeps chosen busy i n next none k = search keeps_rules
  try_one-Keeps chosen busy i n next (some s) k =
      search (given_kept, found_or-Keeps, keeps_rules) depth 9

  assign-Keeps :
      (chosen : Bool) (busy ordered : List ℕ) (start left offset : ℕ)
      → Keeps I (assign env p chosen busy ordered start left offset)
  unfolding assign
  assign-Keeps chosen busy ordered start zero offset = search keeps_rules
  assign-Keeps chosen busy ordered start (suc left) offset =
      try_one-Keeps chosen busy _ _ _ _ (assign-Keeps chosen busy ordered start left (suc offset))

  hold_known-Keeps :
      (chosen : Option ℕ) (busy : List ℕ) (o : Option Booking)
      → Keeps I (hold_known env p chosen busy o)
  unfolding hold_known hold_new
  hold_known-Keeps chosen busy (some b) = search keeps_rules
  hold_known-Keeps chosen busy none = search (keeps_rules, assign-Keeps) depth 9

  pub hold_tx-Keeps : (chosen : Option ℕ) (busy : List ℕ) → Keeps I (hold_tx env p chosen busy)
  unfolding hold_tx
  hold_tx-Keeps chosen busy = search (keeps_rules, hold_known-Keeps)
