-- ===== src/Refine.antt =====
-- The operations of fs/dlm/lock.c implement the table of `lockify.Spec`.
pub mod Frame
pub mod Quiet
pub mod Relation
pub mod Grant
pub mod Remove
pub mod Judge
pub mod Pending
pub mod Op
pub mod Send
pub mod Reply
pub mod Stage
pub mod Receive
pub mod Request
pub mod Args
