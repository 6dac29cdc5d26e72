-- ===== src/Track.antt =====
-- Track (ddspipe_core/src/cpp/communication/dds/Track.cpp): from a reader to the writers.
pub mod Protocol
