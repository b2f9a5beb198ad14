-- ===== src/Rtp.antt =====
-- code/rtp: an H.264 file cut into frames, and the frames packed into RTP packets.
pub mod H264
pub mod Header
pub mod Session
pub mod Stream
mod Tests
