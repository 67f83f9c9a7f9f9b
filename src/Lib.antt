-- ===== src/Lib.antt =====
-- A verification library of the REST API of the blockchain: the core of its services, written as
-- functions from the state and the answers of its surroundings to results.
--
-- The parts, each with the files of the repository that it models:
-- - Batch: the transaction batches. Batch and Batch/Groups hold the entities of
--   src/endpoints/transactions.batch/entities; Batch/World the state (the batches and the pending
--   transactions of the remote cache as two stores, the events, the
--   submissions and the clock), the environment and the monad of the services. Batch/Execute is
--   executeTransaction and startTransactionGroup, with createTransaction of
--   src/endpoints/transactions/transaction.service.ts; Batch/Start is startTransactionBatch, the two
--   conversions and the POST handler of src/endpoints/transactions.batch. Batch/Process is the update of
--   a batch by a processed transaction, and Batch/Handle the registry of pending transactions and the
--   job for dropped ones, of src/crons/transaction.processor/batch.transaction.processor.service.ts.
--   A batch that Start stores is the one that Process and Handle find under its address and id.
-- - Nodes: src/endpoints/nodes/node.service.ts. Nodes/Heartbeat makes the nodes from heartbeats and
--   statistics, Nodes/Owners reads owners and the queue from the contracts, Nodes/Assemble adds the
--   queue, identities, providers, stakes and auctions, Nodes/All composes them as getAllNodesRaw does,
--   and Nodes/Filter is the filter, the sort and the pages.
-- - Identities: src/endpoints/identities/identities.service.ts, the grouping of nodes and the stake
--   distribution.
-- - Providers: src/endpoints/providers/provider.service.ts, the list of providers and its sums.
-- - Stakes: src/endpoints/stake/stake.service.ts, the shares of a node and the counts of validators.
-- - LockedAsset: src/common/locked-asset/locked-asset.service.ts, the unlock milestones.
-- - Tokens: the roles of addresses, of src/utils/token.helpers.ts, src/endpoints/esdt/esdt.service.ts and
--   src/endpoints/tokens/token.service.ts.
-- - CacheInfo: the keys of the caches, src/utils/cache.info.ts; Batch stores under keys of that class.
-- - Transactions: the lookup of a transaction. Transactions holds the entities, Transactions/Lookup is
--   tryGetTransactionFromElastic of src/endpoints/transactions/transaction.get.service.ts,
--   Transactions/Gateway its tryGetTransactionFromGateway and Transactions/Logs the loop over the hashes,
--   Transactions/Properties and Transactions/Operations the properties of tokens and the operations of
--   src/endpoints/tokens/token.transfer.service.ts, and Transactions/Trim trimOperations of
--   src/endpoints/transactions/transaction.utils.ts.
-- - Actions: src/endpoints/transactions/transaction-action, what a transaction does in words.
--   Actions/Metadata and Actions/Transfers read what is called and what is transferred, Actions/EsdtNft,
--   Mex, Mex/Pair, Stake and Calls are the recognizers, Mex/Settings reads the contracts of the
--   exchange, and Actions/Recognize asks the recognizers in their order.
--   The properties of transferred tokens are those of Transactions/Properties.
-- - ProcessNfts: src/endpoints/process-nfts/process.nfts.service.ts and
--   src/queue.worker/nft.worker/nft.worker.service.ts, the processing that an owner asks for.
-- - Common: lists, tests, equality and JavaScript's operations on texts.
--
-- A service's operation is the function with its name. What is not code of the repository is a
-- parameter: the caches (with the laws of a store, IsCache), the gateway, the plugins and the hashing of
-- transactions in Env; groupBy in GroupBy; the contract queries and decoders in Contract and Decoders;
-- distinct and toLowerCase in Library; the decoders of BinaryUtils and AddressUtils, sorted and JSON.parse
-- in Package, Binary and Services; the order of texts, Number and sort in Texts; BigInt of a text.
-- An error that is thrown is a failure of the monad, or none. A list that a loop mutates is passed on
-- from round to round; the loops of the processor count the groups and items that are left, which the
-- loops of the source never change. Two definitions run on fuel: the loop over the hashes of
-- Transactions/Logs, with one more than there are hashes, and the recursion into carried transactions of
-- Actions/Metadata, with more than the decoded text of the transaction is long; both are proved to end.
--
-- Not modelled: logging; the reads through the indexer, the gateway and HTTP; floating-point ratings,
-- yearly returns and progress; controllers other than the batches' POST handler; the other services.
-- Numbers of the source that are amounts or counters are natural numbers; a difference of amounts that
-- can be negative is an integer.
pub mod Common
pub mod Batch
pub mod Nodes
pub mod Identities
pub mod Providers
pub mod Stakes
pub mod LockedAsset
pub mod Tokens
pub mod CacheInfo
pub mod Transactions
pub mod Actions
pub mod ProcessNfts
