-- ===== src/Lib.antt =====
-- simb, a small blockchain node: its chain of headers, its pool of transactions, and the exchange of
-- both with other nodes. This library models the parts that decide what is stored, served, downloaded
-- and passed on, and proves what they do.
--
-- The program's parts and the files that model them:
-- * src/interface.rs (Interface): the data that the parts exchange, with u64 fields as numbers;
--   Interface/Providers has the traits by which they call the network. Mining with a broadcast and the
--   pool work on any `BroadcastProvider`, beside whose state they keep their own.
-- * src/blocktree.rs (BlockTree and the files below it): the trait `BlockTree`, its implementation
--   `Chain` over a redb database, the hash and the mining of a block, and `FixedBlockTimeMiner`.
--   BlockTree/Types has the errors, the results and the trait; Reads the reads and the validation;
--   Chain the opening, the write and `try_add_block_header`; Hash and Mining the rest of the file;
--   Miner the miner, whose ticks Ticking follows. BlockTree/View is the abstract chain, and BlockTree/Contract is what a client of
--   the trait relies on; Refinement fills it for `Chain`.
-- * src/pool.rs (Pool): the pool, a map ordered by hash (Prelude/BTreeMap). Pool/Contents has its abstract
--   view, a quotient of the lists of transactions.
-- * src/tasks/sync_header.rs (SyncHeader): the download of a range of headers from one peer.
-- * src/net/chain.rs (Manager): `ChainNetworkManager`, which adds announced headers, serves headers,
--   and runs downloads. Manager has the events, Manager/Polling the phases of `poll`. It works on any
--   block tree, by the contract, and uses the pool and the downloads as they are modelled.
-- * src/net/network.rs and src/net/mod.rs (Network): `NetworkManager`, which carries out commands on the
--   swarm of libp2p, and tells the others what the swarm reports. Network has the state and
--   `handle_command`, Network/Events the handlers of the swarm's events, Network/Run the loop;
--   Network/Messages has the commands, the replies and the events, Network/Swarm the swarm itself,
--   which is a parameter; Network/Behaviour has `AppBehaviour`, and what it asks of the behaviours of
--   libp2p, which are parameters.
-- * src/net/provider.rs (Provider): the calls by which the other parts send commands and await replies,
--   and the traits that they fill.
-- * src/client.rs (Client): the settings of a node, and its start; the builder of the swarm takes the
--   `AppBehaviour` of the node.
-- * src/main.rs (Main): the options of the command line, and the node that they start.
-- * src/rpc.rs (Rpc): the three methods that answer from the chain; Rpc/Server the start of the server
--   and the call of a method by its name, and Rpc/Service the check of the token before it; Rpc/Mined
--   joins them to the miner; Rpc/Hex has the standard library's reading and printing of hexadecimal
--   numbers.
-- * examples/rpc_client.rs (RpcClient): a client that asks the server three things; the HTTP client is a
--   parameter, and RpcClient/Asking joins it to the server.
--
-- Cluster joins the parts: nodes of this program, one of which mines, on a network that may lose, copy,
-- reorder and regroup the headers that nodes send, and adds none of its own; nodes may be started anew on
-- their chains. Manager/Rule says what a node relies on of the headers that come to it, and what it keeps
-- to, and Manager/Running, Collected and Polled show that a node keeps to such a rule over all calls of
-- `poll`; Manager/Alive and Cluster/OnChain are two such rules. Manager/Gossiped follows the pool of a node
-- over all calls.
--
-- How the code is modelled. A function that may fail answers in `Result`, whose third case is a panic;
-- a method that changes a shared object is a function of its state (Prelude/Exec). A text is the list
-- of its bytes. An overflow of u64 is a panic or wraps, as the build is made (`overflow_checks`).
-- What lies outside of the repository is a parameter: the record `System` of External has the calls of
-- redb, alloy_rlp, serde_json, sha2, hex and the timer of tokio, and `Laws` says what their documentation
-- promises of a database that works, and of the timer; Tests/Memory fills both. A future is a function of its state and of what it
-- finds when it is polled: the answers that have come, by the positions of their requests, the events
-- in the channel, the ticks of the timer. All orders of arrival are inputs. A one-shot channel is a
-- number: the network manager logs what became of each, a reply or a sender that was dropped, and the
-- provider takes what comes back as an argument; Provider/Received, Network/Mined
-- and Network/Pooled join the two. Which receivers are
-- there when a handler runs is an argument of the handler.
--
-- Bounds and fuel. The loop that sends requests runs over the places that are free, the loop that
-- serves headers over the limit of the request, the loops over lists by their structure. The loop of the
-- network manager runs over the list of what `select!` finds ready, round by round. Taking the
-- transactions of a pool runs on fuel, and the number of its entries is enough. A number is printed with
-- 16 hexadecimal digits at most, enough for a u64.
--
-- Not modelled: the behaviours of libp2p and the swarm itself; the logging of the HTTP layers around
-- the methods of src/rpc.rs; the reading of the command line in src/main.rs, and src/lib.rs, which sets up logging;
-- the random transactions of `tx_rng`; the integration tests in the source files; logging. Locks are
-- not poisoned here, and calls on one object run one after the other, as the locks make them for single
-- calls. The channels are unbounded, and a task that panics is not started again.
-- Where a call of the provider would panic before it gives a future, the future panics instead.
mod Prelude
pub mod Interface
pub mod External
pub mod BlockTree
pub mod Pool
pub mod SyncHeader
pub mod Manager
pub mod Rpc
pub mod RpcClient
pub mod Network
pub mod Provider
pub mod Client
pub mod Cluster
pub mod Main
pub mod Tests
