-- ===== src/Lib.antt =====
-- The Decentralized Cloud: Master Nodes take requests to run functions, have them run by Compute Nodes
-- and verified by others, and close a block of verified transactions every second, which a Storage Node
-- keeps. Nodes speak over a distributed hash table, clients over web sockets.
--
-- Base: what the modules share, with association lists for the maps of the program, `std::to_string`
--   and `std::stoull` on decimal texts, code that may throw half-way, and sorting.
-- Json: the JSON objects the nodes exchange.
-- Transaction: BlockChainCommon/transaction.cpp, a record for the class and a function for each member
--   function. Codec has the JSON form, Votes the counting of verification results.
-- Message: the commands of shared/common/types.h, and the calls that leave a node.
-- Wire: the text of a message, as `gossip` of BlockChainCommon/functions.cpp writes it and
--   `getFieldsAndValues` reads it; Inbox has `processIncomingData`, Delivery the way
--   of a text through the table, Packing `compressString` and `decompressString`, Fragments the
--   messages of BlockChainCommon/IncomingMessage.cpp, Sockets the connections of
--   BlockChainCommon/webSocketServer.cpp.
-- Peers: the known nodes of BlockChainCommon/functions.cpp (`addNode` and
--   the getters); Requests has how a node joins, Sync what nodes tell one another of them.
-- Block: MasterNodeLib/BlockUtil.cpp; Chain runs `getBlock` over a list of rounds.
-- Storage: StorageNode/StorageNode.cpp. World has the calls of IPFS and of the table, Trees functions and
--   templates, Commits the blocks and their queue, Documents the documents of a template,
--   Filtering and Evaluation the evaluation of filters, Expression the text of a filter, Search the
--   searches in sorted documents, Order the order of their values, Commands the queues of state changes.
-- Compute: ComputeNode/main.cpp, the handlers of a Compute Node; Requests has the course of a request,
--   Script the texts of ComputeNodeLib/JsProcessor.cpp.
-- Master: MasterNodeLib/MasterNodeLib.cpp. State has the globals as one record, Clock the voting
--   timestamp, Producers whose turn it is, Voting the hourly election, Ledger the map of transactions
--   and the queue for the blocks, Request a client's request, Closing the closing of blocks and the turns
--   of `runLoop`; Handlers has the handlers of MasterNode/main.cpp.
--
-- A function that changes globals takes the record and returns it. What leaves the node (`gossip`, web
-- socket sends, puts into the table, subscriptions) is appended to `sent`. An exception is `thrown` with
-- the state as it left it, or `none` where nothing reads that state. Texts are lists of bytes.
--
-- What lies outside the repository is a parameter in the record `Env`: signatures, digests, base 64,
-- the table's answers, JSON texts, random draws, whether a client is connected to the web socket server
-- (which is taken to run), and `std::sort` with its law where a theorem needs it.
-- The dump of a JSON object throws where a text is not UTF-8; this is written out where a Master Node
-- makes blocks, answers clients and tells others of a transaction or its exception. An absent member of
-- a constant JSON object, for which `operator[]` has no defined result, is an exception here.
-- `time_t` values are natural numbers; block numbers and the voting timestamp wrap at 2^64, the numbers
-- of voters at 2^32. The verification counters are not bounded. Locks are not modelled: a call is one
-- step, but for the votes, where Voting.Ballots interleaves the two critical sections of `registerVote` and
-- the node's own ballot.
-- A Storage Node's calls are actions on a `World`, in order: IPFS, the table and the JSON library are
-- parameters in Storage.World.Env, the laws of the first two in Storage.Kept.Laws, with the value put
-- last being the one that the table gives. The sorted documents of a search are a list with the order
-- of Storage.Order, nulls before numbers before texts; the null that the search writes into a document
-- without the operand is not, and a read past the end, which would fill the array with nulls, is an end
-- of its own: what the search does from there on is not modelled. Where two blocks have one number or
-- two commands one time, the later goes first.
--
-- Loops run over lists, or on fuel: `std::to_string` on more than the number it prints; the scan of an
-- expression on the length of the text, of which every turn reads a character; the binary search and
-- the loops around it on the number of documents and one, as every step leaves out a document.
--
-- Not modelled: the startup, V8 and the functions that scripts call, key files and logging, when an idle
-- queue of a Storage Node ends, and input and output; the libraries under shared are third-party. The
-- repository lacks the header of IncomingMessage.cpp: the members are read off their uses.
pub mod Base
pub mod Json
pub mod Transaction
pub mod Message
pub mod Wire
pub mod Peers
pub mod Block
pub mod Storage
pub mod Compute
pub mod Master
