-- ===== src/Http.antt =====
-- http/request and http/response: from the received bytes to the broker's request, and back.
pub mod Request
pub mod Response
pub mod Blocks
