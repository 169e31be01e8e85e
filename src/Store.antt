-- ===== src/Store.antt =====
-- The database that the API keeps through Prisma (apps/api/prisma/schema.prisma), as the services
-- read and write it: a list of rows for each table. The one-to-one relations `hold`, `meeting` and
-- `graph_event`, whose tables have the booking's id as primary key, are fields of the booking.
-- Ids are UUIDs, only compared, and stand as numbers; instants are milliseconds since the epoch.
mod Tables
mod Queries
pub mod Keys
pub use Tables.*
unfoldable pub use Queries.*
