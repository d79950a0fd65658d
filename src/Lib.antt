-- ===== src/Lib.antt =====
-- A model of the parts of the platform that keep state: the compressed KV cache in VRAM with the
-- router in front of it, the files of KV snapshots, the coordinator's index of which node holds which
-- prefix, the ledger of jobs, the queue of jobs and the gateway's rate limiter. The gateway asks the
-- limiter; a job is written to the ledger and put into the queue; a worker takes it out and asks the
-- router for its prompt's prefix, which looks into the pool and then into LMCache; the run, its snapshot
-- and where the snapshot lies are written to the ledger. Router.antt is a client of Pool.antt and
-- LmCache.antt. The files Prelude.antt (and Prelude/), Dict.antt (Python's dict) and Sql.antt are shared.
--
-- korith_vllm_ext/compressed_vram_pool.py
--   Slab.antt is the free list of one layer (_alloc_span, _free_span, _blocks_needed). Pool.antt
--   has the pool's state (Pool) with get (lookup), delete, clear, _reuse_score, _evict_one and the
--   loop of _allocate for one layer (alloc_layer). Pool/Insert.antt has _allocate and
--   `insert`, the part under the lock of the insertions put_from_raw, promote_from_raw and
--   put_from_vllm, which are in Pool/Put.antt; Pool/Restore.antt has restore_to_tensor.
--   Pool/Machine.antt runs any list of calls; its children's other files hold
--   the lemmas, named for what they prove.
--   Floats, the codecs, the gathering of vLLM's blocks, torch.stack and the time are arguments. A
--   codec and torch.stack may raise. An eviction reads the clock once for each entry that it scores:
--   the readings are a function of the layer, the round and the key (Clock.scored). The loop that
--   evicts has fuel for one round more than there are entries, since each round takes one out.
--   A call with more layers than the pool has raises IndexError, which is a value here.
--   Not modelled: the bytes of the slabs (_write_slabs), which nothing in this file reads back but
--   the compaction and map_into_vllm; those two; restore_to_vllm; logging; the lock, which makes
--   each call one step.
--
-- platform/ledger/db.py
--   Sql.antt has the statements that the code sends, on tables as lists of rows. Ledger.antt has the
--   tables, Ledger/Jobs, Keys, Governance and Locations the functions, and Ledger/Machine.antt any
--   sequence of writes, each a transaction that is rolled back if it raises.
--   json and hashlib are arguments. Text columns compare by code point, which is SQLite's order of
--   valid UTF-8. Rows that ORDER BY leaves tied come in the order of the table.
--   Not modelled: opening the file, the triggers (no statement of the code meets them) and the
--   migration of older files.
--
-- platform/queue/sqlite_queue.py
--   Queue.antt has every method on the table as a list of rows. A round of the loop of `dequeue` is
--   `poll`, which is one transaction after the reclaiming; the loop runs on a list with the clock's
--   readings of each round, which ends with the deadline. Queue/Machine.antt runs any calls of any
--   workers. Times are whole ticks. The payload and its JSON text are arguments (Payload).
--   Not modelled: opening the file and its migration, the environment variables, which are Settings.
--
-- platform/queue/inproc_queue.py
--   InProcQueue.antt has every method, each as one step; a get that times out returns none.
--
-- platform/gateway/rate_limit.py
--   RateLimit.antt has SqliteRateLimiter.check_and_consume. The floating product with the burst
--   factor is an argument. Not modelled: the limiter on Redis.
--
-- korith_vllm_ext/tiered_router.py, korith_vllm_ext/lmcache_adapter.py
--   Router.antt has the router's state (Router) with lookup, _miss (miss), store_after_prefill,
--   _should_mirror, prefetch and one round of _prefetch_worker; LmCache.antt has the adapter's lookup
--   (fetch), store and evict. Router/Machine.antt runs any calls and rounds. The LMCache library is an
--   argument (Engine), and so are the clock, the latencies, whether the disk works and whether the
--   lookup in LMCache raises (Readings). Priorities of the prefetch queue are not negative.
--   Not modelled: compute_prefix_hash (SHA-256), the start and stop of the worker's thread, a resolver
--   that raises, stats and log_summary, the probing of the library and the environment variables.
--
-- korith_vllm_ext/amf_kv_manager.py
--   KvManager.antt has the cache's layers as lists of blocks of bytes, and the header, the layer table
--   and the payload of a file; KvManager/Words.antt is `struct` on lists of bytes, KvManager/Keys.antt
--   the hashes, keys and file names, KvManager/Store.antt the manager (save_kv_state, restore_kv_state,
--   has_snapshot). The loop that reads a model file in chunks has fuel for one round more than the file
--   has bytes, since each round but the last reads one at least. Python's number formats have fuel for
--   one digit more than the number, since each digit divides it by the base.
--   A shape that torch would refuse, a block out of range and a value that struct.pack refuses end in
--   an exception, which is a value here; OSErrors and which dtypes torch converts to numpy are
--   arguments. Tokens and block ids are not negative. Scattering to the same block twice, whose order
--   torch leaves open, keeps the last. Not modelled: the parents of the files' paths, amf_float_bits.
--
-- platform/runtime/amf_coordinator.py
--   Coordinator.antt has the index: its two dicts and the table `coordinator_entries` change together.
--   The methods are register, heartbeat, evict, lookup and stats, and `__init__` is open_index.
--   Coordinator/Keys.antt has the keys, Coordinator/Machine.antt any calls. json, and strip, lower and
--   isalnum of str, are arguments. The stale keys of a heartbeat, a set in Python, come in the order in
--   which they were added. Not modelled: the HTTP handler and the server loop, which are I/O; the lock,
--   which makes each call one step.
--
-- platform/runtime/spec_decode.py
--   SpecDecode.antt has the controller: __init__, maybe_run, update and reset; floats and the constants
--   written as floats are arguments. Not modelled: get_metrics, which rounds the fields for telemetry.
--
-- platform/runtime/decode_cache_store.py, platform/runtime/restore_store.py
--   RequestStores.antt has get and set of both stores, on tables as lists of rows (Sql/Keyed.antt).
--   Not modelled: opening the file and creating the table.
--
-- platform/cluster/node_registry.py
--   NodeRegistry.antt has register_or_heartbeat, list_nodes and get_node on the SQLite table, which the
--   code uses where no Redis is given; json is an argument, and a text that it refuses makes list_nodes
--   raise, which is none here. Not modelled: the path through Redis; opening the file.
pub mod Prelude
pub mod Dict
pub mod Sql
pub mod Slab
pub mod Pool
pub mod Ledger
pub mod Coordinator
pub mod InProcQueue
pub mod KvManager
pub mod LmCache
pub mod NodeRegistry
pub mod Queue
pub mod RateLimit
pub mod RequestStores
pub mod Router
pub mod SpecDecode
