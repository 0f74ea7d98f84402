-- ===== src/Platform.antt =====
-- The publishing platforms a user connects: their adapters (backend/internal/platform/adapter.go and
-- registry.go), the table of connections (backend/internal/repository/platform_connection_repository.go),
-- and the service over both (backend/internal/service/platform_service.go).
pub mod Adapters
pub mod Connections
pub mod Service
pub mod Sessions
pub mod Keys
pub mod Unique
pub mod Traces
pub mod Entries
pub mod Invariant
pub mod Rows
pub mod Isolation
pub mod Auth
pub mod SignIn
pub mod Verified
pub mod Sorting
pub mod Listing
mod Tests
