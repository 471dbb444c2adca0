-- ===== src/Ride.antt =====
-- internal/ride: the ride service.
pub mod Fsm
pub mod Surge
pub mod Repository
pub mod Invariant
pub mod Matching
pub mod Service
pub mod Grpc
pub mod Boundary
pub mod Run
mod Tests
