-- ===== src/Http.antt =====
-- app/http: requests, their parser, responses, and the server that joins them.
pub mod Bytes
pub mod Headers
pub mod Request
pub mod Decimal
pub mod Response
pub mod Context
pub mod Server
