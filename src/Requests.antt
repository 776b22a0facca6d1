-- ===== src/Requests.antt =====
-- internal/http/request: the bodies of requests, decoded, their validation at the boundary, and their
-- conversion to the inputs and patches of internal/domain. Each Validate answers the fields that it
-- refuses, with the reason.
pub mod Issues
pub mod Events
pub mod Members
pub mod Rooms
pub mod Sessions
pub mod Bounds
