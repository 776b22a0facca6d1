-- ===== src/Responses.antt =====
-- internal/http/response: the presenters, and the error envelope. A body is the value that is encoded;
-- a field that JSON leaves out is an Option.
pub mod Rows
pub mod Sessions
pub mod Envelope
pub mod Emails
pub mod Tokens
