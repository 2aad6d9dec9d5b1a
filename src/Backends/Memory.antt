-- ===== src/Backends/Memory.antt =====
-- The in-memory backend keeps the promises.
use tiny_cache.Base.{
  ◌≡◌, refl, ap, ◌∙◌, Text, Bytes, ℤ, Option, none, some, Option-cases, inl, inr, leb, dec_le, true,
  false, le→leb, lt→leb-false, if◌then◌else◌, arith,
}
use tiny_cache.Errors.{ok}
use tiny_cache.Dict.{lookup}
use tiny_cache.Domain.{validate_key}
use tiny_cache.StoreModels.{Env, CacheEntry, new_entry}
use tiny_cache.StoreModels.Live.{live}
use tiny_cache.MemoryStore.State.{CacheStore}
use tiny_cache.MemoryStore.Methods.{set}
use tiny_cache.MemoryStore.Invariant.{IsValid}
use tiny_cache.MemoryStore.Checked.{view, view_now}
use tiny_cache.MemoryStore.Contract.{get-view, set-written, set-refused, stored-set, lookup-set_ne}
use tiny_cache.MemoryStore.Conditional.{set_if_absent_lem, compare_and_set_lem}
use tiny_cache.MemoryStore.Deletion.{delete_lem}
use tiny_cache.MemoryStore.Runs.{Op, step, step-IsValid}
use tiny_cache.MemoryStore.Port.{memory_port}
use tiny_cache.Backends.{BackendView, IsBackend, set_outcome, has_entry}

live-view :
    (env : Env) (s : CacheStore) (key : Text)
    → live env (env.clock s.reads) (lookup key s.store) ≡ view_now env s key
unfolding view
live-view env s key = elim (Option-cases (lookup key s.store)) [
  | inl p ↦ rw (p, view) refl
  | inr (e, p) ↦ rw (p, view) refl
]

has_entry-of : (e : Option CacheEntry) → elim e [ none ↦ false | some _ ↦ true ] ≡ has_entry e
has_entry-of none = refl
has_entry-of (some e) = refl

module _ (env : Env) (key : Text) (value : Bytes) (ttl : Option ℤ) (s : CacheStore)
    (accepted : validate_key key ≡ ok tt) (valid : IsValid env s) where
  set_answer : (set env key value ttl s).0 ≡ set_outcome env value s.max_value_bytes
  set_answer = elim (dec_le (env.getsizeof value) s.max_value_bytes) [
    | yes small ↦
        let (n, e, room) = set-written env key value ttl s accepted valid small in
        rw (le→leb _ _ small) (ap (λ r. r.0) e)
    | no large ↦
        rw (lt→leb-false (env.getsizeof value) s.max_value_bytes (omega arith))
          (ap (λ r. r.0) (set-refused env key value ttl s accepted valid (omega arith)).0)
  ]

  set_entry_after : lookup key (set env key value ttl s).1.store ≡ (
      if leb (env.getsizeof value) s.max_value_bytes
      then some (new_entry env value ttl (env.clock s.reads))
      else lookup key s.store)
  set_entry_after = elim (dec_le (env.getsizeof value) s.max_value_bytes) [
    | yes small ↦ rw (le→leb _ _ small) (stored-set env key value ttl s accepted valid small)
    | no large ↦
        let (e, same) = set-refused env key value ttl s accepted valid (omega arith) in
        rw (lt→leb-false (env.getsizeof value) s.max_value_bytes (omega arith))
          (ap (λ r. lookup key r.1.store) e ∙ same key)
  ]

abbrev pub memory_view : Env → BackendView CacheStore
memory_view env = record {
  Holds = IsValid env;
  entry = λ s key. lookup key s.store;
  reads = λ s. s.reads;
  max_value_bytes = λ s. s.max_value_bytes;
}

-- The in-memory backend is a backend, with its validity as the invariant.
pub memory-IsBackend : (env : Env) → IsBackend env (memory_port env) (memory_view env)
unfolding step
memory-IsBackend env = record {
  get = λ key s accepted valid. rw (live-view env s key) (
      let (answer, _, _, entries) = get-view env key s accepted in
      (answer, entries, step-IsValid env (Op.get key) s valid));
  set = λ key value ttl s accepted valid. (
    set_answer env key value ttl s accepted valid,
    set_entry_after env key value ttl s accepted valid,
    lookup-set_ne env key value ttl s accepted valid,
    step-IsValid env (Op.set key value ttl) s valid,
  );
  set_if_absent = λ key value ttl s accepted valid. rw (live-view env s key) (
    (set_if_absent_lem env key value ttl s accepted valid).0,
    step-IsValid env (Op.set_if_absent key value ttl) s valid,
  );
  compare_and_set = λ key expected value ttl s accepted valid. rw (live-view env s key) (
    (compare_and_set_lem env key value ttl s accepted valid expected).0,
    step-IsValid env (Op.compare_and_set key expected value ttl) s valid,
  );
  delete = λ key s accepted valid.
      let (answer, entries, _, _, _) = delete_lem key s accepted in
      (
        answer ∙ ap ok (has_entry-of (lookup key s.store)),
        entries,
        step-IsValid env (Op.delete key) s valid,
      );
  stats = step-IsValid env Op.stats;
}
