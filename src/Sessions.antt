-- ===== src/Sessions.antt =====
-- app/sessions: the session service over its tables, the blob store and the quota.
pub mod Tests
pub mod Model
pub mod Rows
pub mod Service
pub mod Uploads
pub mod Listing
pub mod Ingest
pub mod Stored
pub mod Checked
pub mod Kept
pub mod Requests
pub mod Isolation
pub mod Integrity
pub mod Reach
