-- ===== src/Lib.antt =====
-- AgentAllowance: a model of the payment core of the repository and its correctness theorems.
--
-- An agent pays a merchant from a smart account whose spending policy bounds what the agent may do.
-- The merchant's service issues a challenge and, for a signed payment, asks a facilitator to verify
-- and to settle it. The facilitator is a plugin of a relayer: it checks the transaction, the
-- authorization entries and the simulated events, under a policy manifest where the account has one.
--
-- The parts and their files (paths from the repository's root):
-- - Common: the shared names. Control is the control flow of a TypeScript function (`next` goes on,
--   `stop` is an early return, `thrown` an exception), Tests the Boolean tests, Lists the array
--   methods, Int the integers over the native numbers.
-- - Shared, Shared/Amounts, Shared/Decimal, Shared/Challenge: packages/shared/src (types.ts,
--   reason-codes.ts, amounts.ts, x402.ts). A text is matched by the codes of its characters.
-- - Xdr: the values of @stellar/stellar-sdk that the code reads. The SDK's functions are the fields
--   of the record Sdk, an argument of every definition that calls them; a field is `none` where the
--   function throws. One theorem assumes what the SDK documents, as the record IsSdk; no other assumes
--   anything of them.
-- - Payer/Receipt, Payer/Fee: packages/x402-payer/src (receipt.ts, `settle` of facilitator.ts,
--   `selectTransactionFeeStroops` of payment.ts).
-- - Auth: `validateDelegatedAuthorizationEntries` of packages/stellar-smart-account-auth/src/validate.ts.
--   Auth/Building: `buildDelegatedAuthorizationEntries` of authorization.ts there.
-- - Policy/Manifest, Policy/Events, Policy/Spending, Policy/Simulation, Policy/Payment:
--   packages/facilitator-policy/src (manifest.ts, events.ts, verify-authorization.ts, verify.ts).
-- - Relayer/Entries, Relayer/Transfers: the checks of
--   packages/relayer-plugin-x402-facilitator/src/stellar/utils.ts. Relayer/Request, Relayer/Signatures,
--   Relayer/Profile, Relayer/Verify: `verify` of src/stellar/verify.ts there, cut at the points where its
--   refusals begin to name the payer, with `resolvePolicyWasmHashes` of policy-hashes.ts. The relayer's
--   answers (latest ledger, simulation, ledger entries, the rule of a recipient policy) are a record.
-- - DemoApi/Table: the challenge table of apps/x402-demo-api/src/store.ts; a method is one statement or
--   one immediate transaction of the database, so one step. DemoApi: the handlers of app.ts, cut at the
--   awaits of `facilitator.verify` and `facilitator.settle`. DemoApi/System: the service with any number
--   of requests in progress as a step relation, in which requests interleave, fail and are lost.
--   DemoApi/Segments and DemoApi/Safe carry the invariant.
-- - Relayer/Channel: the settlement by the channel service of src/stellar/settle.ts there, with the loop of
--   submissions and the polling. Relayer/Settle: `settle`, with its repeated verification and the
--   settlement by the relayer; Relayer/Arguments: `scValToJsonArg` of utils.ts. What surrounds one settlement
--   (times, the relayer at each verification, the answers of the service) is a record of functions.
-- - Relayer/Guards: the guards of a request's shape in utils.ts, over JSON values. Relayer/Handler: the
--   plugin's handler.ts and utils.ts.
-- - Agent/Preflight, Agent/Allowances: `preflight`, `#getAllowance`, `#createAllowance` and
--   `#revokeAllowance` of packages/sdk/src/agent-allowance.ts. Agent/Evidence: the two tables of
--   packages/sdk/src/store.ts with their constraints; a statement is one step, `none` where it throws.
--   Agent/Attempt and Agent/Pay: `pay`, `fetch` and `reconcile`, cut at their awaits. Agent/System: an agent
--   with any number of calls over one store as a step relation, in which calls interleave, fail and are
--   lost. Agent/Advance, Agent/Safe and Agent/Once carry the invariant, Agent/Outcomes what a call leaves.
-- - Examples: the theorems at concrete values, with a concrete SDK.
--
-- Bounds: one loop runs on fuel, the polling of the channel service, which the source bounds by the clock
-- only: one turn more than a thousandth of the milliseconds that are left is enough, under a clock that
-- does not go back and timers that do not fire early. Every other loop of the source is a recursion on a
-- list or on the turns that it counts. A bigint is an unbounded integer; a number is an integer, with the
-- source's tests for safe integers.
--
-- Texts are lower-cased over the ASCII letters, where the source compares hexadecimal hashes and the
-- names of networks. The payer of a relayed transaction is the native value of an argument, which need
-- not be a text; a Boolean or a byte array in its place counts as truthy.
--
-- In the merchant's service a payload without `extra` is answered by 400 where the source throws, and the
-- lookup of the ledger for the protected response does not fail; an absent timeout is not defaulted; the body
-- of the paid response is read without failure; the seconds of a new allowance are whole numbers.
--
-- Not modelled: the HTTP framing, the processes, the console, the command line tools and the site, which
-- are input and output; the owner's administration and the building of transactions, which are calls of the
-- SDK; the lists and the balance of the agent, which only read; the contracts in Rust.
pub mod Common
pub mod Shared
pub mod Payer
pub mod DemoApi
pub mod Xdr
pub mod Auth
pub mod Policy
pub mod Relayer
pub mod Agent
pub mod Examples
