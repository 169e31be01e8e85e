-- ===== src/Availability.antt =====
-- The slots that the public pages offer: `parseHm`, `buildAvailabilityContext`, `getGraphBusyMap` and
-- `getAvailability` of apps/api/src/services/booking.service.ts, in the child modules.
pub mod Clock
pub mod Context
pub mod Query
