-- ===== src/Lib.antt =====
-- The rewards contracts of Secret Finance (SEFI): CosmWasm contracts for Secret Network, in Rust.
--
-- The emission contract (contracts/weight-master) mints the governance token by a schedule of
-- blocks and shares it among staking contracts by weight. A staking contract (contracts/lp-staking)
-- takes deposits of an incentivized token, asks its reward sources for an allocation before each
-- deposit and redemption, and runs the deposit or redemption itself as a call of its own (a hook)
-- after the sources have answered with `NotifyAllocation`. It tells the subscribed poll factories
-- every new balance. The bulk distributor (contracts/bulk-distributor) is another reward source:
-- it spreads each bulk of tokens that the admin sends evenly over a number of blocks. The
-- development fund (contracts/dev-fund) takes an allocation from the emission contract as a staking
-- contract does, and its beneficiary redeems it. A poll (contracts/secret-poll) weighs votes by the
-- stake in a staking contract, learns of changes of stake from the factory that made it, and is
-- decided by a committee after its end. The poll factory (contracts/poll-factory) makes the polls for
-- those who have staked enough, registers each by a challenge, and passes on what the staking
-- contract tells it to those that have not ended. The governance token (contracts/gov-token) is a
-- SNIP-20 token that its minters mint. The cashback minter (contracts/cashback-minter) mints cashback
-- for the swaps that the supported pairs report.
--
-- Files:
-- - Common and its children: lists, results, checked arithmetic, the stores by address, and the
--   lemmas about them. `Ensures P r` says that `P` holds of what the call `r` returns, if it does.
-- - Scrt: packages/scrt-finance/src, one child for each file (Types, LpStakingMsg, MasterMsg,
--   VoteTypes, ViewingKey), Chain for `Env`, `HandleResponse` and the messages, and Bytes for the
--   comparison of bytes.
-- - LpStaking: contracts/lp-staking/src. State has the storage; Rewards the accounting
--   (`update_rewards`, `deposit_hook`, `redeem_hook`, `emergency_redeem`); Admin the handlers of the
--   admin, the sources and viewing keys; Handle `init` and `handle`; Query the queries. Accounting,
--   Amounts, Balance, Allocation, Flows and Solvency are about what the contract holds and owes;
--   Withdraw about hooks that cannot fail; Notified and Redemption about a whole redemption; Effects
--   and Access about who may change what; Forecast about the reward query.
-- - WeightMaster: contracts/weight-master/src. State, Emission (`get_spy_rewards`), Handle; then
--   Minted and Schedule about the emission, Weights about the total weight, Shares about the
--   rewards of all contracts together, Updates about one contract's updates, Access about the admin
--   and the query.
-- - BulkDistributor: contracts/bulk-distributor/src. Msg and State (msg.rs, state.rs), Rewards
--   (`get_spy_rewards`), Handle; then Blocks about the award block by block, Owed and Backed about
--   what is paid and left to pay, Agreement about updates and the query, Access about the admin.
-- - DevFund: contracts/dev-fund/src. Msg, State, Handle and Query; then Balance about the stored
--   rewards, Redeem about a redemption, Access about who may change what.
-- - SecretPoll: contracts/secret-poll/src. Msg and State (msg.rs, state.rs), Tally (`update_vote`),
--   Handle (`init`, `handle`; `finalize` is split into `reveal`, the call of a member, `conclude`,
--   the answer, and `validate`), Query; then Counts about the tally, Ballots and Election about the
--   votes as an election, Reveal and Decided about the committee, Stakes about changes
--   of stake, Participation and Valid about what makes a decided poll valid.
-- - PollFactory: contracts/poll-factory/src. Challenge, State and Msg (one for each file), Handle,
--   Query; then Registered and Remembered about the registered polls, Births and Fanout about the
--   factory and its polls together.
-- - GovToken: contracts/gov-token/src. ViewingKey (viewing_key.rs, rand.rs, utils.rs), Msg, State,
--   Handle with its children Steps, Start (`init`) and Transfers (contract.rs, receiver.rs), Query;
--   then Books and Ledger about what one call does to
--   balances, allowances and the supply, Accounts about all calls, Stopped about the stopped token,
--   Keys about viewing keys and padding.
-- - CashbackMinter: contracts/cashback-minter/src. Asset (asset.rs, querier.rs), Msg, Handle
--   (contract.rs, state.rs, the queries too); then Pairs about the supported pairs and the cashback.
-- - The Tests modules run the contracts at concrete inputs; those of LpStaking stand in Inputs.
--
-- How the source is rendered: a handler takes the storage and returns the new storage with the
-- response, or an error; the chain drops the writes of a call that fails. `StdResult` and panics are
-- one result type. Every `u64` and `u128` operation is checked, since the release profile of
-- Cargo.toml sets `overflow-checks`. A serialised message is the value that was serialised. The
-- functions recur on lists and need no fuel. A text or number that `format!` puts into an error is
-- kept as an argument of the error.
--
-- Parameters: hashing, random bytes, base64, the bytes of a text, `to_lowercase`, the constant-time
-- comparison, the canonical forms of addresses, `from_binary`, `to_binary` where bytes matter,
-- `pad_handle_result`, the balance query of a token and the answers of queried contracts. The
-- storage is that after `init`, with one field for each key: a user's record is stored under the
-- address alone, and an address is never spelled like a configuration key.
--
-- Not modelled: the padding of query answers, serialisation, the chain's delivery of messages (the
-- hooks are calls like any other, which the contract accepts from itself only), and the contract
-- cashback.

pub mod Common
pub mod Scrt
pub mod LpStaking
pub mod WeightMaster
pub mod BulkDistributor
pub mod DevFund
pub mod SecretPoll
pub mod PollFactory
pub mod GovToken
pub mod CashbackMinter
