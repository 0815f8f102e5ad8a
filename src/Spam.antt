-- ===== src/Spam.antt =====
-- internal/spam: the Bayes model of the spam filter.
pub mod Store
pub mod Training
mod Tests
