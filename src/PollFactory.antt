-- ===== src/PollFactory.antt =====
-- The poll factory, contracts/poll-factory: it makes polls, registers them by a challenge, and passes
-- changes of stake on to the polls that have not ended.
pub mod Challenge
pub mod State
pub mod Msg
pub mod Handle
pub mod Query
pub mod Registered
pub mod Births
pub mod Remembered
pub mod Fanout
mod Tests
