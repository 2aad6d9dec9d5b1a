-- ===== src/SqliteStore/Port.antt =====
-- The SQLite backend as a `CacheStorePort`.
use tiny_cache.Errors.{ok}
use tiny_cache.Ports.{CacheStorePort}
use tiny_cache.StoreModels.{Env}
use tiny_cache.SqliteStore.State.{SqliteStore, Database}
use tiny_cache.SqliteStore.Methods

abbrev pub sqlite_port : Env → Database → CacheStorePort SqliteStore
sqlite_port env db = record {
  get = Methods.get env db;
  set = Methods.set env db;
  set_if_absent = Methods.set_if_absent env db;
  compare_and_set = Methods.compare_and_set env db;
  delete = Methods.delete;
  stats = λ s. let (report, s') = Methods.stats env s in (ok report, s');
}
