-- ===== src/Election.antt =====
-- The elections of election/: the decisions and the tiebreak, the topic, the rounds, the manager.
pub mod Types
mod Tiebreak
mod Topic
mod Round
mod Manager
mod Tests
