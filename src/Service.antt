-- ===== src/Service.antt =====
-- What every method of BookingService (apps/api/src/services/booking.service.ts) runs in: the state,
-- errors as values, transactions, the outside world, and the helpers that the methods share.
mod Monad
mod Environment
mod Helpers
pub mod Keeps
pub mod Slots
pub mod PostConfirm
unfoldable pub use Monad.*
pub use Environment.*
unfoldable pub use Helpers.*
