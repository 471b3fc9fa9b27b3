-- ===== src/Rfid.antt =====
-- server/rfid: what is done with the events of the readers.
pub mod EpcProcessor
pub mod Reader
