-- ===== src/Internal.antt =====
-- The endpoints for the staff (apps/api/src/internal.controller.ts) and the methods behind them.
pub mod Access
pub mod Listing
pub mod Reinvite
pub mod Resend
