-- ===== src/Worker.antt =====
-- services/worker/src/nexocrypto_worker: the scan of the strategies against a venue.
pub mod Scanner
