-- ===== src/SecretPoll/Ballots.antt =====
-- The ballots of contracts/secret-poll as a function, and what a call does to them.
use secret_finance_rewards.Common.{
  ℕ, ◌≡◌, refl, Option, none, some, Result, ok, err, Ensures, >>=-Ensures, str_eq, if◌then◌else◌,
  lookup-insert,
}
use secret_finance_rewards.Scrt.Types.{HumanAddr, SecretContract}
use secret_finance_rewards.Scrt.Chain.{Env}
use secret_finance_rewards.Scrt.VoteTypes.{PollHandleMsg}
use secret_finance_rewards.SecretPoll.State.{Vote, Deps, store_vote, read_vote}
use secret_finance_rewards.SecretPoll.Tally.{modify_at, discard_vote, update_vote}
use secret_finance_rewards.SecretPoll.Handle.{Externals}

-- The ballots of an election, by voter.
abbrev pub Ballots : Type 0
Ballots = HumanAddr → Option Vote

abbrev pub recast : HumanAddr → Vote → Ballots → Ballots
recast who v b voter = if str_eq who voter then some v else b voter

abbrev pub cast_power : HumanAddr → ℕ → Result ℕ → Ballots → Ballots
cast_power who choice (ok power) b = recast who (record { choice = choice; voting_power = power }) b
cast_power who choice (err e) b = b

abbrev pub reweigh_ballot : HumanAddr → ℕ → Option Vote → Ballots → Ballots
reweigh_ballot who power none b = b
reweigh_ballot who power (some v) b = recast who (record v { voting_power = power }) b

-- What an accepted call does to the ballots: a vote replaces the caller's ballot by one that weighs
-- what the caller has staked, a change of stake weighs a ballot anew, and revealing does nothing.
abbrev pub elect : Externals → SecretContract → Env → PollHandleMsg → Ballots → Ballots
elect x pool env (PollHandleMsg.vote choice key salt) b =
    cast_power env.sender choice (x.balance_query env.sender key pool) b
elect x pool env (PollHandleMsg.update_voting_power voter power) b =
    reweigh_ballot voter power (b voter) b
elect x pool env (PollHandleMsg.finalize hash) b = b

-- What `update_vote` does beside the tally.
pub record IsRecast (d : Deps) (voter : HumanAddr) (new : Vote) (d' : Deps) : Type 0 where
  pub config : d'.config ≡ d.config
  pub pool : d'.staking_pool ≡ d.staking_pool
  pub owner : d'.owner ≡ d.owner
  pub reveals : d'.reveal_config ≡ d.reveal_config
  pub ballots : (who : HumanAddr) → read_vote d' who ≡ recast voter new (read_vote d) who

pub update_vote-IsRecast :
    (d : Deps) (voter : HumanAddr) (previous : Option Vote) (new : Vote)
    → Ensures (IsRecast d voter new) (update_vote d voter previous new)
unfolding update_vote store_vote read_vote
update_vote-IsRecast d voter previous new = >>=-Ensures (discard_vote d previous) _ _ λ left hl.
    >>=-Ensures (modify_at left.0 new.choice _ _) _ _ λ ts hts. record {
      config = refl;
      pool = refl;
      owner = refl;
      reveals = refl;
      ballots = λ who. lookup-insert voter who new d.votes;
    }
