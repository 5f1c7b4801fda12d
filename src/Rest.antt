-- ===== src/Rest.antt =====
-- app/rest: the REST routes over the session service. FastAPI parses the path, the query and the
-- body, and sends the response.
mod Tests
pub mod Images
pub mod Messages
pub mod Routes
