-- ===== src/SecretPoll.antt =====
-- A poll, contracts/secret-poll: voters cast ballots that weigh as much as they have staked, the
-- factory passes on changes of their stake, and a committee reveals the result.
pub mod Msg
pub mod State
pub mod Tally
pub mod Counts
pub mod Handle
pub mod Ballots
pub mod Election
pub mod Reveal
pub mod Decided
pub mod Stakes
pub mod Participation
pub mod Valid
pub mod Query
mod Tests
