-- ===== src/SecretPoll/Valid.antt =====
-- contracts/secret-poll/src/contract.rs: when a poll that is decided counts as valid, by the votes that
-- are stored.
use secret_finance_rewards.Common.{ℕ, ◌*◌, ◌/◌, ◌≡◌, true, ◌&&◌, ltb, length}
use secret_finance_rewards.SecretPoll.State.{Deps}
use secret_finance_rewards.SecretPoll.Counts.{votes_for}
use secret_finance_rewards.SecretPoll.Participation.{IsStrongest}
use secret_finance_rewards.SecretPoll.Ballots.{Ballots}
use secret_finance_rewards.SecretPoll.Stakes.{cast}

-- What decides a poll, as the storage after the decision tells it.
pub record IsDecidedBy (staked : ℕ) (i : ℕ) (d d' : Deps) : Type 0 where
  pub strongest : IsStrongest (length d.config.choices) (λ j. votes_for j d.votes) i
  pub finalized : d'.config.finalized ≡ true
  pub valid : d'.config.valid ≡ (
      ltb d.config.quorum (100 * cast d.votes / staked)
      && ltb d.config.min_threshold (votes_for i d.votes))
  pub tally : d'.tally ≡ d.tally
