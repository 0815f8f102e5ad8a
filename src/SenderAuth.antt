-- ===== src/SenderAuth.antt =====
-- The package internal/senderauth: SPF, DKIM and DMARC of an inbound message.
pub mod State
pub mod Address
pub mod Spf
pub mod Dkim
pub mod Dmarc
pub mod Verify
pub mod Cache
mod Tests
