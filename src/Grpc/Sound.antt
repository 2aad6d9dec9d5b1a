-- ===== src/Grpc/Sound.antt =====
-- Whatever clients send, the server keeps what its application keeps.
use tiny_cache.Base.{◌≡◌, refl, sym, subst, Text, Bytes, ℤ, Option, inl, inr, List, [], ◌∷◌}
use tiny_cache.Errors.{Result, ok, raise, Result-cases, ◌>>◌}
use tiny_cache.Domain.{validate_value}
use tiny_cache.StoreModels.{Env}
use tiny_cache.MemoryStore.State.{CacheStore}
use tiny_cache.MemoryStore.Invariant.{IsValid}
use tiny_cache.MemoryStore.Port.{memory_port}
use tiny_cache.Service
use tiny_cache.Service.{storage_key, with_key, ttl_of_seconds}
use tiny_cache.Grpc.Proto.{CacheItem}
use tiny_cache.Grpc.Contracts.{CacheApp, RpcContext, service_app}
use tiny_cache.Grpc.Lifecycle.{World, Handler, namespace_from_context}
use tiny_cache.Grpc.Batch.{
  build_multi_get_items, build_multi_set_results, build_multi_delete_results,
}
use tiny_cache.Grpc.Servicer
use tiny_cache.Grpc.Servicer.{
  handle, respond_set, respond_conditional, respond_value, answer_stats, in_request,
}
use tiny_cache.Grpc.Scope.{Rpc, serve}
use tiny_cache.Grpc.Answers.{
  called, handle-app, respond_value-app, respond_set-app, respond_conditional-app, stats-app,
}
use tiny_cache.Grpc.Stack.{memory_app}
use tiny_cache.Ports.{CacheStorePort}
use tiny_cache.Backends.{BackendView, IsBackend}
use tiny_cache.Backends.Memory.{memory_view, memory-IsBackend}
use tiny_cache.Service.Keys.{storage_key-IsKey}

-- an invariant of the application's state
pub record Preserves {S : Type 0} (app : CacheApp S) (P : S → Type 0) : Type 0 where
  pub get : (key : Text) (n : Option Text) (s : S) → P s → P (app.get key n s).1
  pub set :
      (key : Text) (value : Bytes) (ttl : ℤ) (n : Option Text) (s : S)
      → P s
      → P (app.set key value ttl n s).1
  pub set_if_absent :
      (key : Text) (value : Bytes) (ttl : ℤ) (n : Option Text) (s : S)
      → P s
      → P (app.set_if_absent key value ttl n s).1
  pub compare_and_set :
      (key : Text) (expected value : Bytes) (ttl : ℤ) (n : Option Text) (s : S)
      → P s
      → P (app.compare_and_set key expected value ttl n s).1
  pub delete : (key : Text) (n : Option Text) (s : S) → P s → P (app.delete key n s).1
  pub stats : (s : S) → P s → P (app.stats s).1

-- a request with the context that it comes in and the request id that it would be given
pub record Request : Type 0 where
  pub rpc : Rpc
  pub context : RpcContext
  pub fresh_id : Text

unfoldable pub serve_all : {S : Type 0} → CacheApp S → List Request → World S → World S
serve_all app [] w = w
serve_all app (r ∷ rs) w =
    serve_all app rs (serve app r.rpc (record w { context = r.context; fresh_id = r.fresh_id }))

module _ {S : Type 0} (app : CacheApp S) (P : S → Type 0) (keeps : Preserves app P) where
  called-keeps :
      {A : Type 0} (call : Option Text → S → Result A × S) (w : World S)
      → ((n : Option Text) (s : S) → P s → P (call n s).1)
      → P w.app
      → P (called call w).1
  called-keeps call w h p = elim (Result-cases (namespace_from_context w.context)) [
    | inl (n, q) ↦ rw (q, called) (h n w.app p)
    | inr (e, q) ↦ rw (q, called) p
  ]

  handle-keeps :
      {A B : Type 0} (empty : B) (respond : A → Handler S B)
      (call : Text → Option Text → S → Result A × S) (w : World S)
      → ((a : A) (v : World S) → (respond a v).1.app ≡ v.app)
      → ((i : Text) (n : Option Text) (s : S) → P s → P (call i n s).1)
      → P w.app
      → P (handle empty respond call w).1.app
  handle-keeps empty respond call w same h p =
      let (i, e) = handle-app empty respond call w same in
      subst P (sym e) (called-keeps (call i) w (h i) p)

  multi_get-keeps :
      (i : Text) (n : Option Text) (keys : List Text) (s : S)
      → P s
      → P (build_multi_get_items app i n keys s).1
  unfolding build_multi_get_items
  multi_get-keeps i n [] s p = p
  multi_get-keeps i n (key ∷ keys) s p =
      multi_get-keeps i n keys (app.get key n s).1 (keeps.get key n s p)

  multi_set-keeps :
      (i : Text) (n : Option Text) (items : List CacheItem) (s : S)
      → P s
      → P (build_multi_set_results app i n items s).1
  unfolding build_multi_set_results
  multi_set-keeps i n [] s p = p
  multi_set-keeps i n (item ∷ items) s p =
      multi_set-keeps i n items (app.set item.key item.value item.ttl n s).1
        (keeps.set item.key item.value item.ttl n s p)

  multi_delete-keeps :
      (i : Text) (n : Option Text) (keys : List Text) (s : S)
      → P s
      → P (build_multi_delete_results app i n keys s).1
  unfolding build_multi_delete_results
  multi_delete-keeps i n [] s p = p
  multi_delete-keeps i n (key ∷ keys) s p =
      multi_delete-keeps i n keys (app.delete key n s).1 (keeps.delete key n s p)

  serve-keeps : (rpc : Rpc) (w : World S) → P w.app → P (serve app rpc w).app
  unfolding serve Servicer.get Servicer.multi_get Servicer.set Servicer.set_if_absent
      Servicer.compare_and_set Servicer.multi_set Servicer.delete Servicer.multi_delete
  serve-keeps (Rpc.get r) w p = handle-keeps _ _ _ w respond_value-app (λ _. keeps.get r.key) p
  serve-keeps (Rpc.multi_get r) w p =
      handle-keeps _ _ _ w (λ _ _. refl) (λ i n. multi_get-keeps i n r.keys) p
  serve-keeps (Rpc.set r) w p =
      handle-keeps _ _ _ w respond_set-app (λ _. keeps.set r.key r.value r.ttl) p
  serve-keeps (Rpc.set_if_absent r) w p =
      handle-keeps _ _ _ w respond_conditional-app (λ _. keeps.set_if_absent r.key r.value r.ttl) p
  serve-keeps (Rpc.compare_and_set r) w p =
      handle-keeps _ _ _ w respond_conditional-app
        (λ _. keeps.compare_and_set r.key r.expected_value r.value r.ttl) p
  serve-keeps (Rpc.multi_set r) w p =
      handle-keeps _ _ _ w (λ _ _. refl) (λ i n. multi_set-keeps i n r.items) p
  serve-keeps (Rpc.delete r) w p = handle-keeps _ _ _ w (λ _ _. refl) (λ _. keeps.delete r.key) p
  serve-keeps (Rpc.multi_delete r) w p =
      handle-keeps _ _ _ w (λ _ _. refl) (λ i n. multi_delete-keeps i n r.keys) p
  serve-keeps Rpc.stats w p = subst P (sym (stats-app app w)) (keeps.stats w.app p)

  pub serve_all-keeps : (rs : List Request) (w : World S) → P w.app → P (serve_all app rs w).app
  unfolding serve_all
  serve_all-keeps [] w p = p
  serve_all-keeps (r ∷ rs) w p =
      let w' = record w { context = r.context; fresh_id = r.fresh_id } in
      serve_all-keeps rs (serve app r.rpc w') (serve-keeps r.rpc w' p)

with_key-keeps :
    {S A : Type 0} (P : S → Type 0) (r : Result Text) (call : Text → S → Result A × S) (s : S)
    → ((key : Text) → r ≡ ok key → P (call key s).1)
    → P s
    → P (with_key r call s).1
with_key-keeps P (ok key) call s h p = h key refl
with_key-keeps P (raise e) call s h p = p

-- The service keeps the invariant of any backend, since the keys that it makes are accepted.
service_app-keeps :
    {S : Type 0} (env : Env) (port : CacheStorePort S) (b : BackendView S)
    → IsBackend env port b
    → Preserves (service_app port) b.Holds
unfolding Service.get Service.set Service.set_if_absent Service.compare_and_set Service.delete
    Service.stats validate_value
service_app-keeps env port b backend = record {
  get = λ key n s v.
      with_key-keeps b.Holds (storage_key key n) port.get s
        (λ k p. (backend.get k s (storage_key-IsKey key n k p) v).2) v;
  set = λ key value ttl n s v.
      let t = ttl_of_seconds ttl in
      with_key-keeps b.Holds (validate_value value >> storage_key key n) (λ k. port.set k value t) s
        (λ k p.
          let (_, _, _, kept) = backend.set k value t s (storage_key-IsKey key n k p) v in kept)
        v;
  set_if_absent = λ key value ttl n s v.
      let t = ttl_of_seconds ttl in
      with_key-keeps b.Holds (validate_value value >> storage_key key n)
        (λ k. port.set_if_absent k value t) s
        (λ k p. (backend.set_if_absent k value t s (storage_key-IsKey key n k p) v).1) v;
  compare_and_set = λ key expected value ttl n s v.
      let t = ttl_of_seconds ttl in
      with_key-keeps b.Holds (validate_value expected >> validate_value value >> storage_key key n)
        (λ k. port.compare_and_set k expected value t) s
        (λ k p. (backend.compare_and_set k expected value t s (storage_key-IsKey key n k p) v).1) v;
  delete = λ key n s v.
      with_key-keeps b.Holds (storage_key key n) port.delete s
        (λ k p. (backend.delete k s (storage_key-IsKey key n k p) v).2) v;
  stats = backend.stats;
}

-- Whatever requests arrive, in whatever order and with whatever metadata, a backend that keeps the
-- promises of the port keeps its invariant.
pub serve_all-Holds :
    {S : Type 0} (env : Env) (port : CacheStorePort S) (b : BackendView S)
    → IsBackend env port b
    → (rs : List Request) (w : World S) → b.Holds w.app
    → b.Holds (serve_all (service_app port) rs w).app
serve_all-Holds env port b backend rs w =
    serve_all-keeps (service_app port) b.Holds (service_app-keeps env port b backend) rs w

-- The in-memory backend stays valid: its memory counter is exact, and its limits on items and bytes
-- hold.
pub serve_all-IsValid :
    (env : Env) (rs : List Request) (w : World CacheStore)
    → IsValid env w.app
    → IsValid env (serve_all (memory_app env) rs w).app
serve_all-IsValid env rs w =
    serve_all-Holds env (memory_port env) (memory_view env) (memory-IsBackend env) rs w
