-- ===== src/Grpc.antt =====
-- tiny_cache/transport/grpc: the gRPC front end.
pub mod Proto
pub mod Mapping
pub mod Contracts
pub mod Lifecycle
pub mod Batch
pub mod Servicer
pub mod Rejections
pub mod Scope
pub mod Answers
pub mod RequestId
pub mod Interceptors
pub mod Stack
pub mod RoundTrip
pub mod Sound
pub mod OneByOne
pub mod Batches
pub mod Statuses
pub mod Metadata
