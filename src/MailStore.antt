-- ===== src/MailStore.antt =====
-- The protocol side of the mail store: protocol_store.go, keywords.go and mail_credentials.go of
-- internal/service.
pub mod Tables
pub mod Flags
pub mod Folders
pub mod Messages
pub mod Relocation
pub mod Keywords
pub mod Credentials
pub mod View
pub mod Counters
mod Tests
