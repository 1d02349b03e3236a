-- ===== src/Objects.antt =====
-- internal/objects/service.go: the versions of the objects, their blobs and where these are placed.
pub mod Tables
pub mod Payload
pub mod Placement
pub mod Storing
pub mod Reading
pub mod Versions
pub mod Lifecycle
pub mod Migration
pub mod Invariant
pub mod Rows
pub mod Latest
pub mod Aside
pub mod Preserving
pub mod Removing
pub mod Changing
pub mod Protected
pub mod Current
pub mod Seen
pub mod Refinement
pub mod Readback
pub mod RoundTrip
mod Tests
