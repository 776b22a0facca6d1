-- ===== src/Handlers.antt =====
-- internal/http/handler: each handler is a function from a request and the tables to a response and
-- the tables.
pub mod Context
pub mod Events
pub mod Members
pub mod Rooms
pub mod Sessions
pub mod Invitations
