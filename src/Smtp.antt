-- ===== src/Smtp.antt =====
-- internal/smtp: what a session accepts, and how a message reaches mailboxes and the relay.
pub mod Delivery
pub mod Queue
pub mod Service
pub mod Session
pub mod Submission
mod Tests
