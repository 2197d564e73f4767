-- ===== src/Tests.antt =====
-- Concrete inputs: the interfaces of Money.antt at a simple instance, and the theorems at states of
-- the service where their hypotheses hold.
pub mod Fixtures
pub mod Storage
pub mod Runs
pub mod Sound
pub mod Access
pub mod Requests
pub mod Lists
pub mod Pages
pub mod Live
pub mod Malformed
