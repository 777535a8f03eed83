-- ===== src/Lib.antt =====
-- Verification of etherscan, which reads the blocks of Ethereum, keeps a graph of the transactions
-- between wallets, and computes a score for every wallet.
--
-- Parts and files (paths are those of the repository):
--
-- * bspgraph/ is a processor of graphs in supersteps. A vertex has a value, edges, a flag for being
--   active, and two message queues, one that the current superstep reads and one that the next one
--   will. Bsp/Queue is message/memory_queue.go, Bsp/Graph is graph.go up to SendMessage, Bsp/Step its
--   step and stepWorker, Bsp/Config is config.go with NewGraph, Bsp/Executor is executor.go.
--   Aggregator/Int and Aggregator/Float64 are aggregator/accumulator.go.
-- * gravitas/ computes the scores on such a graph: Gravitas/Compute is the compute function of
--   compute.go, Gravitas/Calculator is calculator.go with config.go, and Gravitas/Run follows a run
--   from superstep 0 to the end.
-- * txgraph/ has the data of the transaction graph (TxGraph/Types) and its in-memory store
--   (TxGraph/Memory for store/memory/memory.go, with its iterators in TxGraph/Memory/Iterators).
-- * scorestore/ has the scores (ScoreStore/Types) and their in-memory store (ScoreStore/Memory,
--   with its iterators in ScoreStore/Memory/Iterators).
-- * depl/monolith/partition/range.go splits the wallet addresses among workers: Partition/Range, with
--   the hexadecimal numbers of math/big in Partition/Hex and sort.Search in Partition/Search.
--   Partition/Detector is detector.go.
-- * scanner/ reads the transactions of a block into the graph: Scanner/Parser is tx_parser.go with
--   payload.go, Scanner/Blocks is block_fetcher.go with the source and the sink of scanner.go.
-- * pipeline/ runs the scan: Pipeline is pipeline.go with the FIFO stages of stage.go, and Pipeline/Order
--   is about the order in which the sink gets the payloads, with Order/Stages for the step of one stage
--   and Order/Pending for what is under way. Pipeline/Pool is the stage of DynamicWorkerPool (its lemmas
--   in Weights, Places, Routines and Tokens), and Pipeline/Broadcast that of Broadcast (Handed and Copies).
-- * blockinserter/ adds the numbers of new blocks: BlockInserter is block_inserter.go.
-- * txgraphapi/ and scorestoreapi/ put the two stores behind gRPC: Rpc/Streams has what the iterators of
--   the clients and the loops of the servers share, Rpc/TxGraph and Rpc/ScoreStore the messages, and
--   below them Server and Client. What they are called for is an interface (TxGraph/Api,
--   ScoreStore/Api) that the in-memory stores fill (Interface below each of them).
-- * dbspgraph/ runs the graph processor on several machines, in lock-step: Dbsp/Barrier is the
--   master's barrier of barrier.go, as the events of its channels, Dbsp/Aggregators the exchange of
--   aggregated values and Dbsp/Callbacks the callbacks of executor.go, and Dbsp/Relay the receive
--   loops of master_job_coordinator.go and worker_job_coordinator.go, which relay messages and steps.
--   Relay/Numbering counts the barriers that a worker joined and left, Links, Moves and Returns are
--   about the link of one worker, Answers about what it sends, Jobs and Timely about all of them.
--   Dbsp/WorkerPool is worker_pool.go, and Dbsp/Coordinator RunJob of the two coordinators.
-- * depl/monolith/service/gravitas/gravitas.go drives a calculator: Service/Gravitas is a pass, which
--   fills it with the wallets of the transaction graph, runs it, and hands the scores to the score
--   store. Its lemmas follow the load (Loading, Loaded), the run (Vertices) and the scores (Persisting)
--   to the whole pass (Pass); Ticks is about the loop around it.
--
-- How the code is read:
--
-- * A method that changes its receiver returns the new state; an error is a value of a type of the
--   component. A string is the list of its bytes, a Go map an association list (Base/Map); what a loop
--   over a map does is stated for every order, or for the order of the list.
-- * The workers of a superstep become a schedule, the order in which they take the vertices, and one
--   round of a worker is one atomic action. What is proved of a step holds for every schedule.
-- * math/big.Int is ℤ over the native numbers (Base/Ints). math/big.Float is a parameter, the record
--   BigFloat of Gravitas/Float: its laws say that sums and differences of integers are exact up to 53
--   bits. An int64 in an aggregator is its pattern of 64 bits, with the wrap-around written out.
-- * What goroutines do to each other through channels, in the pipeline, the worker pool and the
--   distributed processor, is a sequence of events (Base/Events): an event takes the state to the next
--   one, or cannot happen. The channels have no buffer, so that a send and its receive are one event.
-- * The fuel of a loop bounds its rounds. The executor's loop takes one unit for each superstep; a
--   run of the calculator needs 4, and RunSteps(n) needs n + 1. The loop over a queue takes one unit
--   for each message and one to end. The binary search takes one for each round, and has as many as
--   there are partitions. A loop over an iterator takes one for each item and one to end. The digits
--   of a number n are at most n + 1. The theorems show all of these but the binary search's to be
--   enough.
-- * The routines that load wallets at once become the order in which their vertices arrive.
-- * gRPC is a connection that loses nothing and reorders nothing. The Ethereum client, the timestamps of
--   protocol buffers and the texts of floats are parameters.
--
-- Not modelled: the interleavings of goroutines within one method, but for those named above; the
-- context beyond its error at a superstep and the end of a pipeline or a job; the stores on CockroachDB;
-- of dbspgraph/, Master and Worker and the sends of stream.go; FixedWorkerPool of the pipeline and the
-- scanner's run in it; generated code, the frontend, and the deployment.
pub mod Base
pub mod Bsp
pub mod TxGraph
pub mod ScoreStore
pub mod Aggregator
pub mod Gravitas
pub mod Partition
pub mod Pipeline
pub mod Service
pub mod BlockInserter
pub mod Dbsp
pub mod Scanner
pub mod Rpc
