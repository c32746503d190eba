-- ===== src/Lib.antt =====
-- A verification library for the off-chain agent of an AI vault (agent/): the Python program that
-- reads lending protocols, scores them, and asks the vault contract to move its funds.
--
-- The parts, and the files that model them
--   Config      agent/config.py: the settings and the environment that overrides them, load_abi.
--   Protocols   agent/protocols/: ProtocolData and the six readers, one module each; `snapshot` is the
--               arithmetic that four of them share. A reader's attributes are a record, and a read
--               returns the new record beside the snapshot or the exception.
--   DataReader  agent/data_reader.py: DataReader.read_all, get_tvl_delta, block_age_seconds;
--               DataReader/Bridge.antt has __init__ and __setattr__ over a heap of readers.
--   Scoring     agent/scoring.py: score_protocol and evaluate.
--   Signer      agent/signer.py: sign_rebalance_params.
--   Main        agent/main.py: run_check in Main/Cycle.antt, in the steps of its comments, with every
--               early return, the retry loop and both exception handlers; Main/Backend.antt has the
--               calls on web3 and the state, Main/Startup.antt the function main.
--   PerBlockLoop  agent/per_block_loop.py: _handle_block in its numbered steps, and run, whose
--               session is PerBlockLoop/Session.antt. What the constructor is given (policy, mempool
--               client, history, metrics) is the record Ports; PerBlockLoop/Metered.antt gives it the
--               registry and the trail of
--               Observability, and PerBlockLoop/Live.antt the client, the store and these together.
--               PerBlockLoop/Concurrent.antt has the reads of a block as tasks of asyncio, run by a
--               schedule that is any list of events; those of the repository never await.
--   History     agent/state/history.py: HistoryStore.append, load_from_disk and the steps of
--               _write_atomic, each of which may raise, on a disk that a crash can damage;
--               History/Flatten.antt has _flatten, and
--               History/Live.antt gives the store to the loop.
--   Signals     agent/signals/f1.py, f3.py, f4.py: the live row of a block and the value of a signal.
--   Mempool     agent/mempool.py: the client of the private relay, its submission and its polling.
--   Smoke       agent/scripts/flashbots_smoke.py: the exit status of the smoke check.
--   Api         agent/api.py: the endpoints. trigger_rebalance is run_scoring followed by
--               answer_score, whose branches are the returns of the source; FastAPI's check of a
--               response is the test that an int field holds an int.
--   Observability  agent/observability.py: MetricsRegistry with render, AuditTrail, the two sinks and
--               the routes of the metrics server.
--
-- How they interact: main.run_check asks the data reader for the snapshots of the readers, smooths
-- their rates, hands them with the gas price to evaluate, and on its advice has the signer sign a
-- request that it sends.
-- The event loop is the other entry: per_block_loop reads every protocol at one block, asks a
-- policy, submits a switch, reports to the observability sinks, and appends to the history, which
-- rewrites its file. The HTTP API scores with the same evaluate and signs with the same signer.
--
-- Conventions
--   A Python exception is a value of Exn, and an action on a state is a function to a Result beside
--   the new state, so what was done before a raise stays done. Floats are an interface (Float) with
--   the laws of IEEE 754 that the proofs use (Float.Laws.IsIeee); Float.Decimal is an instance of both
--   that can be evaluated. An int is a natural number, or an integer where it may be negative; Python's
--   ints do not overflow. A text is a list of code points where the program looks into it. web3,
--   eth_account and the conversions of texts to numbers are parameters.
--
-- Loops: read_all, smooth_all and best_from are recursions on a list; the retry loop is a recursion on
-- the rounds that are left, NONCE_RETRY_LIMIT of them, and an empty range for a negative limit; the
-- endless loop of main is followed for any number of cycles. The polling loop of the
-- mempool client is a recursion on the polls left, and a list of blocks, or of heads
-- (PerBlockLoop/Session.antt), stands for the subscription.
--
-- Not modelled: log lines, sleeping, the parsing of the command line, pandas and the builders of the
-- signals, the decision package that agent/ links to, which is no part of the repository, the Solidity
-- contracts and lib/forge-std.
-- The text of a JSON line, the threads of the metrics server and web3's handling of a web socket are
-- left out. `gather` reads one protocol after the other; PerBlockLoop/Schedules.antt compares that with
-- every schedule of the concurrent reads.
pub mod Api
pub mod Common
pub mod Config
pub mod DataReader
pub mod Float
pub mod History
pub mod Main
pub mod Mempool
pub mod Observability
pub mod PerBlockLoop
pub mod Protocols
pub mod Scoring
pub mod Signals
pub mod Signer
pub mod Smoke
