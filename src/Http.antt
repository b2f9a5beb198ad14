-- ===== src/Http.antt =====
-- code/http: requests and responses.
pub mod Request
pub mod Response
