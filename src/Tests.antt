-- ===== src/Tests.antt =====
-- A small tenant with its bookings, runs of the methods on it, and the theorems applied to it.
pub mod Data
pub mod Calendar
pub mod Methods
pub mod Background
pub mod Offers
pub mod Remotes
pub mod Staff
pub mod Pages
