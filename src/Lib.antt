-- ===== src/Lib.antt =====
-- A model of the booking API (apps/api): customers hold a slot of a salesperson, verify their address,
-- confirm, cancel and move bookings; workers sweep holds and try failed jobs again; the web pages
-- (apps/web) show the API's errors.
--
-- The parts, and the code they model:
--   Prelude, Prelude/*       tests on numbers, lists, rows of a table, texts as character codes
--   Store, Store/*           the tables of apps/api/prisma/schema.prisma and the queries of the service
--   Service, Service/*       the state of a method call, errors, transactions, the outside world, helpers
--                            of apps/api/src/services/booking.service.ts and apps/api/src/utils/jwt.ts
--   Schedule, Schedule/*     the promise about the calendar: no double booking, unique ids; the unique index
--   Hold, CreateHold         createHold, createHoldPublic, tryCreateHoldForSalespersonTx
--   Verify                   sendVerification
--   Confirm, ConfirmById     confirmBooking, confirmBookingById
--   Cancel, Reschedule       cancelBooking, rescheduleBooking
--   Expiry                   expireHolds
--   Busy, Notes              parseBusinessHours, slotOverlapsBusy, normalizeBookingMode,
--                            normalizePublicNotes
--   Availability/Clock       parseHm
--   Availability/Context     dateFromYmdLocal, buildAvailabilityContext
--   Availability/Query       getAvailability with its cache, getGraphBusyMap, getAvailabilityPublic,
--                            listSalespersonsPublic
--   Graph/Client, Graph/Calls, Graph/Hash
--                            apps/api/src/clients/graph.client.ts
--   Graph/Subscriptions      apps/api/src/services/graph-subscription.worker.ts
--   Webhooks                 apps/api/src/webhooks.controller.ts
--   Internal/*               apps/api/src/internal.controller.ts and the methods behind it
--   Public/*                 apps/api/src/public.controller.ts, the methods ending in `Public`, the
--                            customer's links
--   Requests                 sequences of requests, with others in between
--   RateLimit                apps/api/src/middleware/public-rate-limit.ts
--   Jobs/Webhook             apps/api/src/services/webhook.worker.ts
--   Jobs/Compensation        apps/api/src/services/compensation.worker.ts
--   Jobs/Queue               apps/api/src/queue/memory.queue.ts
--   Reconcile                apps/api/src/services/graph-reconciliation.service.ts
--   WebErrors                apps/web/app/public/[tenantSlug]/errors.ts
--   WebForms                 apps/web/app/public/[tenantSlug]/helpers.ts
--   WebApi                   apps/web/app/public/[tenantSlug]/publicBookingApi.ts
--   BookRoute                apps/web/app/public/[tenantSlug]/book/route.ts
--   Tests                    a small tenant on which the methods run
--
-- How the state corresponds: a table is a list of rows, in the order in which the database returns
-- them, which is arbitrary; the relations `hold`, `meeting` and `graph_event`, one to one, are fields
-- of the booking. Ids are only compared and stand as numbers; instants are milliseconds as natural
-- numbers, so a difference of the code is moved to the other side as a sum. A method is a function
-- from the database, the availability cache and the requests sent so far to a result and a new state.
-- What was written before an exception stays written, except inside a transaction.
--
-- Orderings: a transaction runs as a whole, one after the other. In confirmBooking, confirmBookingById,
-- rescheduleBooking and createHold, `env.others` stands for whatever other requests commit between the
-- first reads and the transaction; elsewhere a method runs undisturbed. Where `confirmBooking` reads
-- the clock twice, the two instants are two arguments; elsewhere one instant serves for a method.
--
-- Parameters, the fields of `Env`: the configuration, jsonwebtoken, luxon's calendar and parser, the
-- answers of Microsoft Graph and of the mail sender, randomness, the ids that the database gives, and
-- its collation. `created_at` of a new row is the instant of the transaction.
--
-- A calendar is sound, `Schedule.IsSound`, when no two confirmed bookings of one salesperson overlap
-- and no two rows share an id. `Keeps I m` says that the method keeps `I` of the database.
--
-- The Graph client has a state of its own, `Graph.Client.Client`: its two caches and the requests that
-- it sent; `Remote` holds Microsoft's answers. The services take the client's outcomes from `Env`.
-- `Calendar` holds the functions of luxon that availability needs, for every time zone.
--
-- The unique index on active bookings (apps/api/prisma/migrations/20250121160000_init/migration.sql) refuses
-- the writes that go through `modify_slot`: the reuse of a row for a hold, and the two that move a booking.
-- The other updates of a booking keep its slot, and make no row active that was not: a verification and a
-- confirmation write a row that they have just read as held. A new row is inserted where no row has its
-- slot. Of the unique keys (tenant, email), (tenant, idempotency_key) and (tenant, scope, key), a row with
-- the key is looked for before one is written, so they are not broken either. That of the Graph events holds as far
-- as Graph's ids differ.
--
-- Fuel: the loop over a day's slots runs on `loop_fuel`, one more than the slots that fit into the day,
-- and no fuel left stands for a loop that does not end, which a slot length of 0 makes; a negative slot
-- length moves the cursor back, and the loop does not end either. The other loops
-- go down a list or a number of rounds.
--
-- Numbers in the business hours: the slot length is an integer, the lead time, the buffer and the days ahead
-- are natural numbers; what else `Number` makes of JSON, such as fractions, is left out.
--
-- Not modelled: validation of requests, the Service Bus queue,
-- start-up, logging and health, the audit log, the texts of mails, and the web pages but for their errors,
-- forms, requests and the handler of the booking form.
pub mod Prelude
pub mod Store
pub mod Service
pub mod Confirm
pub mod Schedule
pub mod ConfirmById
pub mod Cancel
pub mod Verify
pub mod Busy
pub mod Notes
pub mod Reschedule
pub mod Hold
pub mod CreateHold
pub mod Expiry
pub mod Requests
pub mod RateLimit
pub mod Availability
pub mod Graph
pub mod Webhooks
pub mod Internal
pub mod Public
pub mod WebForms
pub mod WebApi
pub mod BookRoute
pub mod Jobs
pub mod WebErrors
pub mod Reconcile
pub mod Tests
