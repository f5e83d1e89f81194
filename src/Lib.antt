-- ===== src/Lib.antt =====
-- MiFolyo: a verification library for the Python services of the search engine.
--
-- Three services are modelled here. For services/backlinks-processor, the crawler leaves a Redis set
-- `backlinks:<target URL>` of the URLs that link to a page. The processor scans these sets, buffers
-- their members, writes them in batches as links of the target's MongoDB document, and removes a
-- batch from its Redis set once MongoDB has acknowledged it. The tool reconcile.py compares the
-- backlinks with the outlinks of each page, and can add missing ones.
--
-- services/indexer and services/image-indexer each own one Redis queue. One process at a time holds
-- the queue's lock, with an epoch that a counter hands out; it claims a key from the queue, which
-- moves it to a processing list, does its work under the lock of the page's URL, and ends the claim.
-- A completed page claim puts the page's image manifest on the queue of the image indexer. Each step in
-- Redis is a Lua script that first compares the lock and the counter with what the client presents
-- (the fence), which is meant against a process whose lock was taken over.
--
-- Files, and the code they stand for (paths under services/backlinks-processor):
--   Base              Python's values: lists, texts, byte strings, dicts, Counter, the UTF-8 codec
--   Base/Utf8         the codec and its round trip
--   Backlinks/Config  config.py: ProcessingLimits and its __post_init__
--   Backlinks/Errors  the exceptions of data/redis_client.py, data/mongo_client.py and the drivers
--   Backlinks/Datastore  what the service calls: Redis commands, the MongoDB collection, the BSON
--                     encoder, the stop event and wait, as a record of operations on a world; and
--                     what the service relies on of them
--   Backlinks/Keys    data/redis_client.py: parse_backlink_key, parse_backlink_member
--   Backlinks/Redis   data/redis_client.py: scan_backlink_keys, scan_backlink_members,
--                     srem_backlink_members
--   Backlinks/Mongo   data/mongo_client.py: _validate_url, add_backlinks
--   Backlinks/Batch   main.py: process_batch
--   Backlinks/State   main.py: TargetScanState, ProcessorState, _queue_key, _restore_members
--   Backlinks/Admit   main.py: _admit_members
--   Backlinks/Cycle   main.py: process_cycle; the fill of the key queue in Cycle/Fill, the body of
--                     the target loop in Cycle/Visit, one function per step of it
--   Backlinks/Run     main.py: run_processor
--   Backlinks/Safe    the promise to the datastores, as a relation between two worlds
--   Backlinks/Reconcile  reconcile.py: _validated_document_edges, _authoritative_edges,
--                     _count_missing, _count_historical, reconcile_backlinks, main after its arguments are parsed;
--                     and the queries of data/mongo_client.py that they read with
--   Base/Decimal      the decimal numbers of Lua and Redis;  Base/Base64: base64url without padding
--   Backlinks/Tests   datastores in memory that meet the assumptions, and runs on them
--
-- Files of the two queue services (paths under services):
--   Fenced/Store      the Redis commands that the scripts call, as an interface
--   Fenced/Memory     those commands on a keyspace in memory; IsRedis: a Redis whose replies and effects
--                     are these
--   Fenced/Script     a Lua script as a sequence of commands; eval runs it on a Redis, run in memory
--   Fenced/Queue      data/redis_client.py: the scripts that both services have
--   Fenced/Spec       the queue without its keys: the waiting and the claimed values, newest first
--   Fenced/Queue/*    what each script does for the holder of the lock, and for a stale client
--   Fenced/System     clients that run scripts in any order while the lock may expire at any time
--   Fenced/Spares, Fenced/History  what no script touches; a claim and a recovery as a sequence
--   Fenced/Keys       data/redis_client.py: the keys of publications, _decode_url
--   Fenced/Session    a client's actions: the world, the client's epoch, exceptions, lost messages
--   Fenced/Client     data/redis_client.py and main.py: the methods and loops that both services have
--   Indexer/Scripts, Indexer/Client  indexer/data/redis_client.py: the completion and skip scripts, and
--                     the methods of RedisClient
--   Indexer/Main      indexer/main.py: process_claim, remove_state_and_skip, run_indexer
--   Image/Scripts, Image/Client  image-indexer/data/redis_client.py: the acknowledgement, the
--                     preflights, and the methods of RedisClient
--   Image/Main        image-indexer/main.py: process_claim, run_indexer
--   Fenced/Queue/Stale, Indexer/Scripts/Stale, Image/Scripts/Stale  the scripts of a stale client
--   Image/Mongo       image-indexer/data/mongo_client.py: the canonical locks, replace_page_images; runs
--                     of them in Image/Mongo/Runs
--   Fenced/Tests, Indexer/Tests, Image/Tests  a Redis in memory and runs on it
--
-- How the model corresponds to the code. An action maps a world to a result or an exception, and a
-- world: what was written before a raise stays written. The state and the local variables of
-- process_cycle are records that its steps pass on; the buffer of a target, which the code mutates
-- through an alias, is written back into `state.targets` where the code changes it. The datastores
-- may reply anything at any time, connection failures included. A theorem that needs more takes
-- IsReliable: reads and waits lose nothing, only SREM removes members, from its own set and among
-- its own arguments, and an acknowledged write stores its links. Other clients may add members and
-- links at any time. Byte strings and texts are lists of numbers, sets are lists whose order no
-- theorem relies on, Counters are association lists. The URL validator of url_validation.py is the
-- argument `validate_canonical`, any Boolean test of texts.
--
-- The reconciler's generators are the lists of their yields, which may end with an exception, since
-- what they validate does not depend on the writes between two yields. A cursor is read as of its
-- opening. IsAccurate is what the tool relies on of its queries: while it runs nobody else writes
-- outlinks or removes links. A Python set is iterated in sorted order.
--
-- The driver's calls may raise errors of its BSON codec, which are no PyMongoError and which no handler
-- of the processor names. The constructor of ProcessingLimits takes integers; the object holds the
-- natural numbers that they are once it has found all of them positive. A fenced filter is its
-- selector with the two clauses of its `$or`, whose meaning `admits` gives.
--
-- Bounds. The fill loop runs on the scan calls that are left, and the target loop on the targets
-- that are left, both as the code counts them, so no fuel is added. run_processor has no end of its
-- own and is modelled for each number of rounds. Subtractions: `pending_bytes += now - previous` is
-- `pending_bytes + now - previous` on the natural numbers; which is the same while the count
-- includes that buffer. The comparison with `scan_capacity`, which may not be negative for valid limits,
-- is written as a sum.
--
--
-- A Lua script is a Script: commands and what follows each reply. Redis runs a script without others
-- between its commands, and keeps what a script wrote before an error. The scripts of the two services
-- differ in their keys and messages, and in which of lock and counter they compare first; Layout holds
-- these. A limit in ARGV is the number that tonumber reads; the client only sends numbers. A request
-- may be lost before Redis has it, or its reply afterwards. Exceptions are results of an action;
-- LOCK_LOST and other messages of a script arrive as ResponseError. What process_claim calls beyond
-- Redis (the page store, the HTML analysis, the MongoDB client) is the record Services, of operations
-- that may do anything to the world and raise any exception. A `while running()` loop has a number of
-- rounds, after which the model's result is none, which says that the code is still running; the loop of
-- RECOVER_CLAIMS_SCRIPT has exactly the rounds that its limit leaves.
-- replace_page_images takes the MongoDB calls as the record Collections, whose operations may answer or
-- raise anything. Its generator of word updates is the list of what it yields; weights of words are
-- natural numbers. The slices of the image updates are cut for at most as many offsets as there are
-- images, which is enough because each slice takes one at least.
--
-- Not modelled: log lines and the hashes in them, environment variables, signal handlers, the
-- clients' constructors and the credential check of backlinks-processor, argument parsing, the main
-- functions of the services; of the two indexers get_page_data, get_outlinks, load_work, the HTML
-- analysis with its keyword weights, the MongoDB client of indexer, and get_keywords and Image.from_contract
-- of image-indexer, whose split_name and digest are arguments; and the other services. isinstance
-- tests that the types already decide are left out.
pub mod Base
pub mod Backlinks
pub mod Fenced
pub mod Indexer
pub mod Image
