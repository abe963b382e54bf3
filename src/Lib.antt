-- ===== src/Lib.antt =====
-- The contracts of the Prism protocol. Users bond Luna with the vault for cLuna, which is split
-- into yLuna and pLuna or unbonded in batches; governance mints xPRISM, which the boost contract
-- locks; liquidity tokens are staked with the LP staking contract for PRISM, and yLuna with the
-- yAsset staking contract, which shares out the rewards of the vault's delegations. Each contract
-- is a state and functions from a call (its state, the block, the sender and the message) to a
-- result: the new state and the messages to other contracts, an error, or a panic. The build aborts
-- on a panic and checks overflow, so that a call that ends in an error or a panic changes nothing.
-- The chain runs the messages after the call; replies and token contracts come back as calls.
--
-- The files, by the code they model:
--
--   * Prelude (Results, Lists, Tests, Division): results, lists and tests over native numbers.
--   * Cosmwasm: `Uint128` and `Decimal` of cosmwasm_std, as a record of operations. Its documented
--     behaviour is the hypothesis `IsStd`, which `reference` meets.
--   * Storage (Ordered, Keys, Named, Sums): storage maps. A map keyed by an address is a function,
--     one keyed by a number or listed by `range` is an ordered list (Ordered, Keys, Named).
--   * Messages, Querier: the messages sent, and the chain's answers, which are parameters as are
--     `addr_validate`, `from_binary`, `must_pay` and the pseudo-random generator.
--   * SignedInt: packages/signed_integers.
--   * Boost: contracts/prism-xprism-boost. Accrual, Unbond, Invariant and Access hold the proofs.
--   * Vault.State: contracts/prism-vault/src/state.rs; Requests and Frame hold the lemmas on the
--     wait list and on what is left alone.
--   * Vault.Exchange: `update_exchange_rate`, math.rs and `slashing` of contracts/prism-vault/src.
--   * Vault.Release: `process_withdraw_rate` of contracts/prism-vault/src/unbond.rs.
--   * Vault.Unbonding: `execute_unbond`, `pick_unbond_validator` and `execute_withdraw_unbonded`
--     of the same file; Pick, Request, Withdraw and Frame hold the proofs.
--   * Vault.Bonding, Vault.Refract, Vault.Admin: bond.rs, refract.rs and config.rs of the vault;
--     Bonding.Payment and Mint and Admin.Access hold the proofs.
--   * Vault.Entry: contract.rs of the vault, with `execute` over all messages.
--   * LpStaking: contracts/prism-lp-staking/src. Rewards, Orders, Stakes and Pools are handle.rs
--     with the functions of state.rs that change what is stored, Entry is contract.rs. Backed,
--     Effect and the Keep, Bonds, Unbonds and Owner files hold the proofs on the pools' totals,
--     Rewards.Bounds those on the rewards.
--   * YassetStaking: contracts/prism-yasset-staking/src. Rewards and Deposits are rewards.rs,
--     Staking and Swaps the files of these names, and Entry is contract.rs; assets are those of
--     packages/prismswap/src/asset.rs. Frame, the Keep files and Entry.Invariant hold the proofs on
--     the bonds, Deposits.Amounts those on a deposit. `vault_bond` is the vault's answer to
--     querier.rs; `all_balances` and `exchange_rates` are answers of the chain.
--   * Gov.Entry: contract.rs of contracts/prism-gov/src; Progress, Steps, Access and Reach hold
--     the proofs over all messages.
--   * Gov.Xprism, Gov.Polls, Gov.Creation, Gov.Voting: xprism.rs, polls.rs (Creation is
--     `create_poll`) and voting.rs of contracts/prism-gov/src. Xprism.Orders, Runs and Fair,
--     Creation.Fresh, Polls.Lifecycle, Votes and Live, and Voting.Locked hold the proofs. Canonical
--     addresses are strings, and `addr_humanize` and `addr_canonicalize` are parameters, as is the
--     block's time with seconds added.
--
-- A function has the name of the code's function, except where that name is taken: `set_config` is
-- `update_config` of governance, `bond_payment` is `_execute_bond`, `check_slashing` is
-- `execute_slashing`; in the yAsset staking contract `mint_xprism_hook`, `process_rewards`,
-- `luna_to_pyluna`, `deposit_minted` and `replace_config` are `mint_xprism_claim_hook`,
-- `process_delegator_rewards`, `luna_to_pyluna_hook`, `deposit_minted_pyluna_hook` and
-- `update_config`; and in the boost contract `bond_user`, `unbond_user` and `change_config` are
-- `bond`, `unbond` and `update_config`. A part of a long function that has a name of its own stands
-- above it. A mutable argument of the code is returned.
--
-- Loops: the two loops of `process_withdraw_rate` run on fuel that is one more than the number of
-- recorded batches, which is enough as each round reads another recorded batch; the `while` loop of
-- `pick_unbond_validator` runs on the number of delegations, one of which it removes each time. All
-- other loops go over a list.
--
-- Numbers: `Uint128`, `u64` and `u32` are natural numbers, and an operation that could leave the
-- type panics or fails as the code does. A `Decimal` is its number of units of 10^-18. A time is in
-- seconds.
--
-- Not modelled: log attributes, contract versions, migrations, the text of formatted errors beyond
-- its constant part, queries that copy what is stored or repeat what a handler computes, and the
-- other contracts (launch-pool, collector, airdrop-registry).
pub mod Prelude
pub mod Cosmwasm
pub mod Storage
pub mod Messages
pub mod Boost
pub mod LpStaking
pub mod YassetStaking
pub mod Querier
pub mod SignedInt
pub mod Vault
pub mod Gov
