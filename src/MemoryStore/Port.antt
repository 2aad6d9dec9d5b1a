-- ===== src/MemoryStore/Port.antt =====
-- The in-memory backend as a `CacheStorePort`.
use tiny_cache.Errors.{ok}
use tiny_cache.Ports.{CacheStorePort}
use tiny_cache.StoreModels.{Env}
use tiny_cache.MemoryStore.State.{CacheStore}
use tiny_cache.MemoryStore.Methods

abbrev pub memory_port : Env → CacheStorePort CacheStore
memory_port env = record {
  get = Methods.get env;
  set = Methods.set env;
  set_if_absent = Methods.set_if_absent env;
  compare_and_set = Methods.compare_and_set env;
  delete = Methods.delete;
  stats = λ s. let (report, s') = Methods.stats env s in (ok report, s');
}
