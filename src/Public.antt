-- ===== src/Public.antt =====
-- The public endpoints round the methods (apps/api/src/public.controller.ts and the methods ending in
-- `Public` of apps/api/src/services/booking.service.ts), the customer's links, and the error codes of
-- the confirmation.
pub mod Links
pub mod Endpoints
pub mod Codes
