-- ===== src/Lib.antt =====
-- Verification of the contracts of this repository: the epoch manager, the farm manager and the
-- pool manager.
--
-- The epoch manager (epoch-manager/src) numbers epochs of a fixed duration from a genesis on. The
-- farm manager (farm-manager/src) locks LP tokens in positions, records each position's weight by
-- epoch, and gives the assets of farms to the holders of weight, epoch by epoch; it asks the epoch
-- manager for the current epoch, sends fees to the fee collector and takes LP tokens that the pool
-- manager created. The pool manager (pool-manager/src) keeps pools of two to four assets, swaps one
-- asset for another by a constant product or a stableswap curve, in one pool or along a route,
-- mints LP tokens for deposits and burns them for withdrawals; it locks LP tokens in the farm
-- manager and sends fees to the fee collector. A deposit of a single asset is a message to itself,
-- whose reply is answered by another.
--
-- Which file models what:
--   Base               results, lists, texts, maps, machine integers, coins, decimals
--   Epoch              epoch-manager/src/{contract,commands,helpers,queries}.rs
--   Farm/Data          farm-manager/src/error.rs and the stored types
--   Farm/Storage       farm-manager/src/state.rs
--   Farm/Weights       calculate_weight, update_weights, sync_address_lp_weight_history
--   Farm/Rewards       farm-manager/src/farm/commands.rs, query_rewards of queries.rs
--   Farm/Positions     farm-manager/src/position/{commands,helpers}.rs
--   Farm/Manager       farm-manager/src/manager/commands.rs, helpers.rs
--   Farm/Contract      farm-manager/src/contract.rs, update_config of manager/commands.rs
--   Farm/Frame         what the steps on weights leave alone
--   Farm/Keys, Farm/Listing, Farm/Invariant    the shape of the maps and what keeps it
--   Farm/Solvency      what is locked, owed and paid, per command and over sequences of messages
--   Farm/Settings      the configuration over sequences of updates
--   Farm/Carried       the weights that a reward is computed from
--   Farm/Repeat        a second claim in an epoch
--   Farm/Terms         the terms of farms and the bounds of weights
--   Epoch/Schedule, Epoch/Duration    the epochs and their configuration
--   Pool/Data, Pool/Storage    pool-manager/src/{error,state}.rs and the stored types
--   Pool/Stable, Pool/Deposits    math.rs and the stableswap loops of helpers.rs
--   Pool/Compute       compute_swap and compute_fees of helpers.rs
--   Pool/Swaps         swap/{perform_swap,commands}.rs, query_simulation of queries.rs
--   Pool/Router        router/commands.rs, simulate_swap_operations of queries.rs
--   Pool/Slippage, Pool/Liquidity    assert_slippage_tolerance, liquidity/commands.rs
--   Pool/Creation      manager/commands.rs and the validations of helpers.rs
--   Pool/Contract      contract.rs, manager/update_config.rs
--   Pool/Queries       queries.rs, compute_offer_amount of helpers.rs
--   Pool/Reserves, Pool/Performed    the balances and the steps of a swap
--   Pool/Books, Pool/Covered    what pools hold and messages pay, per command
--   Pool/Constant, Pool/Shares    the value of swaps, deposits and withdrawals
--   Pool/Simulated     simulations against swaps
--   Pool/OneSided      the deposit of a single asset and the swap that it sends
--   Pool/Kept, Pool/Created, Pool/Guards    the shape of the pools, new pools, what is refused
--   Pool/Newton, Pool/Roots    the loops of the stableswap and of the route check
--   Pool/Paused        the pools while the toggles are off
--   Epoch/Tests, Farm/Tests, Pool/Tests    concrete worlds and inputs
--
-- A handler is a function from the environment, the message's sender and funds and the storage to a
-- result: the new storage with the bank messages, or the error. A failed call leaves the storage as
-- it was. Maps are association lists in key order, addresses and denoms are texts of byte codes.
-- Unsigned integers are natural numbers with their checked, saturating and panicking operations
-- written out; an overflow of an unchecked addition is the error `panic`, as overflow checks are on.
-- Timestamps are in nanoseconds, as the library keeps them. A hash set's order, which the code
-- leaves open, is the order of first occurrence.
--
-- Parameters of the model are what the code calls and does not contain: the decimals of
-- cosmwasm_std, one_coin and nonpayable of cw_utils, ownership of cw_ownable, coin aggregation and
-- token names of mantra_utils, and a position's is_expired with the constants of mantra_dex_std;
-- for the pool manager also must_pay, a fee's amount, the integer square root, the supply of LP
-- tokens, bank balances and the farm manager's answers.
-- `Lawful` and `IsFixedPoint` state what is used of them. A new denom costs the contract the fee
-- that the token factory answers, all its coins. The owner is the same throughout a
-- sequence of messages.
--
-- The loops of the sources run over lists or ranges of epochs and are structural recursions. The
-- stableswap loops run at most the 32, 256 or 1000 rounds of the source, which are the fuel: one
-- kind fails when the rounds are used up, the other keeps its last value.
--
-- Not modelled: the fee collector (fee-collector/src), which only passes ownership actions on,
-- migrations, attributes of responses, the queries that pass stored values on, assert_admin of
-- pool-manager/src/helpers.rs, which nothing calls, and the simulator.
pub mod Base
pub mod Epoch
pub mod Farm
pub mod Pool
