-- ===== src/Lib.antt =====
-- tiny-cache, a cache server with TTLs, LRU eviction and a gRPC front end: a model of its core,
-- and what holds of it. The server has four layers. The domain validates keys, namespaces and
-- values. The infrastructure keeps the entries, in memory or in SQLite. The application service
-- turns a key and a namespace into a storage key and calls the store behind its port. The
-- transport serves gRPC: it reads the namespace and a request id, calls the application in a
-- worker thread, and turns its results and exceptions into messages and status codes.
--
-- Which file models which part:
--
-- - Base, Dict, Errors: numbers, texts as lists of character codes, Python's OrderedDict as an
--   association list in order of use, exceptions as results. `ValueError` carries its message;
--   every other exception is `other_exception`.
-- - Domain: tiny_cache/domain/constraints.py and validation.py, with `str.strip` and the pattern
--   of namespaces written out.
-- - Results, Ports: tiny_cache/application/results.py and ports.py.
-- - StoreModels: tiny_cache/infrastructure/memory_store_models.py. `CacheStoreLimits.resolve` is
--   `resolve`, `CacheEntry(...)` is `new_entry`. `Env` holds what the store takes from outside:
--   the clock, as a function of the number of its calls so far, in ticks of which `second` make a
--   second, and `sys.getsizeof` on bytes. Only what needs a monotonic clock assumes one
--   (`IsMonotonic`).
-- - MemoryStore: tiny_cache/infrastructure/memory_store.py. State has the fields of `CacheStore`,
--   with `reads` for the number of clock calls; Eviction has `_evict_lru` and `_evict_to_fit`;
--   Expiry has `_is_expired`, `_remove_expired_entries_locked`, `_remove_if_expired` and the scan
--   of memory_store_cleanup.py; Writing has `_store_value_locked`; Methods has `get`, `set`,
--   `set_if_absent`, `compare_and_set`, `delete`, `stats` and `clear`. A method holds the lock
--   from its first access to its last, so it is one step on the state; Runs interleaves the steps
--   of clients and of the cleaner. The other files under MemoryStore are proofs, and Port is the
--   backend behind the port of the application.
-- - SqliteStore: tiny_cache/infrastructure/sqlite_store.py, in the same files. A table is the
--   list of its rows by key, in the order in which they were written; a statement is a function
--   of the rows. `Database` is what SQL leaves open, namely which of the rows that were accessed
--   earliest is evicted, and `IsOrdered` what it promises of that. Evicted has the run of an
--   eviction loop as a relation, Written what a write does, Checked the check for expiry with
--   which most methods begin; Contract, Reads, Conditional and Runs are what a client can rely
--   on.
-- - Backends: what either store promises behind the port, as laws on a view of its state
--   (`IsBackend`). The application and the transport are proved over any backend; Memory and
--   Sqlite show that both are backends.
-- - Service: tiny_cache/application/service.py over any store; `_storage_key` is `storage_key`.
--   Keys and Isolation are about the namespaces.
-- - Grpc: cache.proto (Proto, where making a message checks the ranges of its numbers) and
--   tiny_cache/transport/grpc: status_mapping.py and response_mapping.py (Mapping), contracts.py
--   (Contracts), request_lifecycle.py (Lifecycle), batch_mapping.py (Batch), servicer.py
--   (Servicer). A handler is a function of `World`: the application's state, the context of the
--   call, the context variable of the request id and the id that `uuid4` would give. Stack,
--   RoundTrip and Sound put the front end, the service and a backend together; OneByOne and
--   Batches set the batch calls against the single ones.
-- - Grpc.RequestId: the scope of `RequestIdInterceptor` in
--   tiny_cache/transport/grpc/interceptors.py.
-- - Grpc.Interceptors: how both interceptors of that file wrap the handlers of a method, in the
--   order that main.py gives them.
-- - ActiveRequests: tiny_cache/transport/active_requests.py and the scope of
--   `ActiveRequestsInterceptor` in tiny_cache/transport/grpc/interceptors.py, as a relation on
--   states and numbers of requests in flight.
-- - Settings: tiny_cache/infrastructure/config.py, with `Settings`, `load_settings` and the three
--   readers of variables; pydantic's checks of the fields are `new_settings`. Factory is
--   store_factory.py and Tls is tls.py, where the calls of grpc are values.
-- - Cli: tiny_cache/cli.py. Values reads the values on the command line, Run has `run` from the
--   parsed arguments to the exit code, over a `Stub` of the server. Ends connects the stub to the
--   servicer as gRPC does, over a channel that is ready and on which no call runs into its
--   timeout or the limit on the size of a message: gRPC may refuse the metadata (`refuses`), and
--   a call on which a code was set raises on the side of the client. Shown runs the client twice,
--   to store and to read.
-- - Health: tiny_cache/transport/http/health_app.py over any provider of statistics; Metrics is
--   the text for Prometheus, Served the middleware around the routes.
-- - Server: tiny_cache/main.py. Started is `serve` up to its port, with what it did, Stopped the
--   signals and the shutdown.
-- - Tests: the definitions on concrete inputs, and each theorem at one.
--
-- Integers of the program that the code keeps at zero or above are natural numbers; settings and
-- TTLs as they arrive are integers. The loops over entries recurse on the dict; the eviction
-- loops of both stores run on fuel, one more than the number of entries, which is enough since
-- each round removes one (MemoryStore.Evicted and SqliteStore.Evicted). `decimal` runs on fuel n
-- + 1 for the number n (Service.Keys.number-decimal).
--
-- Not modelled: of the SQLite backend, the connection, the settings of the database and the
-- errors of its statements; argparse, which parses the command line, and the channel of the
-- client; the logging; the loading of the generated modules; the threads themselves, what is only
-- logged, and the branches for values of another type than the annotated one. Code that is not in
-- the repository is a parameter: the clock and `sys.getsizeof` (`Env`), SQL (`Database`), the
-- environment with `int`, `str.upper` and `str.lower` (`Environ`), files, codecs and the errors
-- of protobuf (`Outside`), floating-point numbers (`Floats`), what opening the database gives
-- (`opened`), gRPC's port (`bind`), and how the calls of the shutdown end (`Outcomes`).
pub mod Base
pub mod Errors
pub mod Dict
pub mod Domain
pub mod Results
pub mod StoreModels
pub mod MemoryStore
pub mod SqliteStore
pub mod Ports
pub mod Backends
pub mod Settings
pub mod Cli
pub mod Health
pub mod Server
pub mod Service
pub mod Grpc
pub mod ActiveRequests
mod Tests
