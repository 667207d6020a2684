-- ===== src/Venue.antt =====
-- connectors/src/nexocrypto_connectors/bitunix: the public stream of the venue.
pub mod Socket
