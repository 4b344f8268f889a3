-- ===== src/Tracker.antt =====
-- The tracker's answer: src/bencoding/src/be_tracker_response_parse.cpp and its header.
pub mod Response
pub mod Promise
