-- ===== src/Tests/Methods.antt =====
-- The answers of the methods, at concrete requests.
use booking_zoom_connect.Prelude.{
  refl, ◌≡◌, ◌⊎◌, none, some, [], ◌∷◌, inl, inr, arith, In, true, false, find_first, find_many,
  update_many, ◌*◌, ◌+◌,
}
use booking_zoom_connect.Store.{
  Booking, Hold, find_booking, update_booking, conflicts_at, is_live, shares_slot,
}
use booking_zoom_connect.Service.{
  TokenPayload, ok, err, unique_violation, transaction, check_idempotency, modify_booking,
  record_idempotency, drop_hold, ◌>>=◌, cancel,
}
use booking_zoom_connect.Confirm.{confirm_tx, mark_confirmed, slot_conflict}
use booking_zoom_connect.Confirm.Decides.{
  confirm_decides, SameRow, NotPending, OtherToken, RunOut, IsTaken, WritesRow,
}
use booking_zoom_connect.Cancel.{cancel_booking, mark_canceled}
use booking_zoom_connect.Cancel.Outcome.{cancel_cancels}
use booking_zoom_connect.Verify.Accepted.{verification_accepted}
use booking_zoom_connect.Verify.{
  send_loaded, send_checked, send_first, send_verification, mark_pending,
}
use booking_zoom_connect.Hold.{
  HoldParams, hold_known, hold_new, assign, try_one, found_or, hold_slot, hold_free, candidates,
  set_cursor, hold_tx, try_create_hold, new_booking, rehold, hold_until,
}
use booking_zoom_connect.Hold.Rivals.{new_slot_decides, same_slot_reused}
use booking_zoom_connect.Hold.Replay.{hold_tx_idempotent}
use booking_zoom_connect.Expiry.{expire_holds, expire_found, sweep, is_run_out}
use booking_zoom_connect.Expiry.Laws.{expire_holds_sweeps}
use booking_zoom_connect.Schedule.Index.{IsIndexed}
use booking_zoom_connect.Hold.Indexed.{hold_tx-IsIndexed}
use booking_zoom_connect.Tests.Data.{
  env-HasFreshIds, day_ms, acme, waiting, booked, stale, three, db_of, world_of, env, three-IsSound,
  params,
}

abbrev key_payload : TokenPayload
key_payload = record { exp = 9; jti = "jti-1"; tenant_id = 1; booking_id = 2; purpose = cancel }

abbrev first_hold : Hold
first_hold = record { expires_at_utc = 9000 }

confirm_decides_example :
    SameRow waiting (transaction (confirm_tx 100 1 1 "jti-1") (world_of three)) (world_of three)
    ⊎ NotPending waiting
        (transaction (confirm_tx 100 1 1 "jti-1") (world_of three))
        (world_of three)
    ⊎ OtherToken waiting "jti-1"
        (transaction (confirm_tx 100 1 1 "jti-1") (world_of three))
        (world_of three)
    ⊎ RunOut 100 waiting "jti-1"
        (transaction (confirm_tx 100 1 1 "jti-1") (world_of three))
        (world_of three)
    ⊎ IsTaken 100 1 waiting "jti-1"
        (transaction (confirm_tx 100 1 1 "jti-1") (world_of three))
        (world_of three)
    ⊎ WritesRow 100 1 waiting "jti-1"
        (transaction (confirm_tx 100 1 1 "jti-1") (world_of three))
        (world_of three)
unfolding find_booking find_first
confirm_decides_example = confirm_decides 100 1 1 "jti-1" waiting (world_of three) refl

cancel_cancels_example :
    ((cancel_booking env 100 "acme" 2 "cancel" "key-1" (world_of three)).0 ≡ ok "canceled")
    × ((cancel_booking env 100 "acme" 2 "cancel" "key-1" (world_of three)).1.db.bookings
        ≡ update_booking 2 drop_hold (update_booking 2 mark_canceled three))
    × (check_idempotency 1 "cancel" "key-1"
          (cancel_booking env 100 "acme" 2 "cancel" "key-1" (world_of three)).1.db
        ≡ true)
unfolding find_booking find_first check_idempotency
cancel_cancels_example =
    cancel_cancels env 100 "acme" 2 "cancel" "key-1" acme booked key_payload (world_of three) refl
      refl refl refl refl refl refl refl refl refl refl

new_slot_decides_example :
    ((o : Booking) × In o three
      × (conflicts_at 1 1 (6 * day_ms) (7 * day_ms) 100 o ≡ true)
      × (try_create_hold env params 1 (world_of three) ≡ (ok none, world_of three)))
    ⊎ (((o : Booking) → In o three → conflicts_at 1 1 (6 * day_ms) (7 * day_ms) 100 o ≡ false)
        × ((try_create_hold env params 1 (world_of three)).0
            ≡ ok (some (new_booking env params 1 9)))
        × ((try_create_hold env params 1 (world_of three)).1.db.bookings
            ≡ new_booking env params 1 9 ∷ three))
unfolding find_first
new_slot_decides_example = new_slot_decides env params 1 (world_of three) refl

-- A slot whose row is stale is given again.
abbrev slot_of_stale : HoldParams
slot_of_stale = record params { start_at = 5 * day_ms; end_at = 5 * day_ms + 1000 }

same_slot_reused_example :
    (is_live slot_of_stale.now stale ≡ true)
      × (try_create_hold env slot_of_stale 1 (world_of three) ≡ (ok none, world_of three))
    ⊎ (is_live slot_of_stale.now stale ≡ false)
      × ((o : Booking) × In o three
          × (shares_slot (rehold (hold_until env 100) slot_of_stale stale) o ≡ true))
      × (try_create_hold env slot_of_stale 1 (world_of three)
          ≡ (err unique_violation, world_of three))
    ⊎ (is_live slot_of_stale.now stale ≡ false)
      × ((o : Booking)
          → In o three
          → shares_slot (rehold (hold_until env 100) slot_of_stale stale) o ≡ false)
      × ((try_create_hold env slot_of_stale 1 (world_of three)).0
          ≡ ok (some (rehold (hold_until env 100) slot_of_stale stale)))
      × ((try_create_hold env slot_of_stale 1 (world_of three)).1.db.bookings
          ≡ update_booking 3 (rehold (hold_until env 100) slot_of_stale) three)
unfolding find_first
same_slot_reused_example = same_slot_reused env slot_of_stale 1 stale (world_of three) refl

three-IsIndexed : IsIndexed (db_of three)
unfolding shares_slot
three-IsIndexed = record { unique = three-IsSound.unique; slots = λ a b ma mb. ground arith }

hold_tx-IsIndexed_example : IsIndexed (hold_tx env params none [] (world_of three)).1.db
hold_tx-IsIndexed_example =
    (hold_tx-IsIndexed env env-HasFreshIds params none []).at (world_of three) three-IsIndexed

hold_tx_idempotent_example :
    hold_tx env params (some 1) (1 ∷ []) (hold_tx env params none [] (world_of three)).1
    ≡ (ok (new_booking env params 1 9), (hold_tx env params none [] (world_of three)).1)
unfolding hold_tx hold_known hold_new assign try_one found_or try_create_hold hold_slot hold_free
    find_first find_many candidates conflicts_at set_cursor ◌>>=◌
hold_tx_idempotent_example =
    hold_tx_idempotent env env params none (some 1) [] (1 ∷ []) (new_booking env params 1 9)
      (world_of three) three-IsSound.unique refl

expire_holds_sweeps_example : is_run_out 100 booked ≡ false
unfolding expire_holds expire_found sweep find_many update_many ◌>>=◌
expire_holds_sweeps_example = expire_holds_sweeps 100 (world_of three) booked (inr (inl refl))

verification_accepted_example :
    (transaction
      (confirm_tx 200 1 1 "jti-1")
      (send_verification env 100 "acme" 1 "mail-1" (world_of three)).1).0
    ≡ ok (some (mark_confirmed (mark_pending "jti-1" waiting)))
unfolding find_booking find_first check_idempotency slot_conflict send_verification send_loaded
    send_checked send_first modify_booking record_idempotency update_booking update_many
    conflicts_at ◌>>=◌
verification_accepted_example =
    verification_accepted env 100 200 "acme" 1 "mail-1" acme waiting first_hold (world_of three)
      refl refl refl refl refl refl refl refl refl
