-- ===== src/Rpc.antt =====
-- app/rpc: the gRPC transport, where it assembles uploads and maps errors.
mod Tests
pub mod Wire
pub mod Single
pub mod Batch
pub mod Codec
pub mod Servicer
