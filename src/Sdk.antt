-- ===== src/Sdk.antt =====
-- sdk/pixeldive_sdk: the Python client, where it splits payloads into frames.
mod Tests
pub mod Chunks
pub mod Mapping
pub mod Client
