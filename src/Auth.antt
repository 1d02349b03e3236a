-- ===== src/Auth.antt =====
-- internal/auth/service.go: passwords, sessions and their refresh tokens.
pub mod Tables
pub mod Sessions
pub mod Login
pub mod Rotation
pub mod Revoked
pub mod Issued
pub mod Granted
pub mod Chosen
pub mod Linked
pub mod Rotated
mod Tests
