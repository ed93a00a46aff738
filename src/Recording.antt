-- ===== src/Recording.antt =====
-- recording.rs: the rolling buffer that clips are cut from, the manager of the recordings, and the
-- limits of the live stream.
pub mod Rolling
pub mod Manager
pub mod Live
