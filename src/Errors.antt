-- ===== src/Errors.antt =====
-- The domain errors of app/exceptions.py and the codes that app/error_map.py gives them.
mod Defs
pub mod Status
pub use Defs.*
