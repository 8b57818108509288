-- ===== src/Io.antt =====
-- The language's `std::io` readers and writers, over which the transports run.
pub mod Stream
