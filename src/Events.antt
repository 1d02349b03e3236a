-- ===== src/Events.antt =====
-- internal/events/service.go: webhook targets and the deliveries of events to them.
mod Tests
pub mod Tables
pub mod Targets
pub mod Deliveries
pub mod Attempts
pub mod Listing
pub mod Wanted
pub mod Placed
pub mod Pages
pub mod Schedule
pub mod Tries
pub mod Subscriptions
pub mod Emission
