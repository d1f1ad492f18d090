-- ===== src/Link.antt =====
-- The messages and frames of the link: link/src.
pub mod Approval
pub mod Frame
pub mod Secure
