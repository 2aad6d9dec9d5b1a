-- ===== src/Backends/Sqlite.antt =====
-- The SQLite backend keeps the promises, whichever of the rows accessed earliest it evicts first.
use tiny_cache.Base.{
  ◌≡◌, ◌≢◌, ◌⊎◌, refl, ap, ◌∙◌, Text, Text-discrete, Bytes, ℤ, Option, none, some, inl, inr, ite,
  leb, dec_le, true, false, le→leb, lt→leb-false, if◌then◌else◌, arith,
}
use tiny_cache.Errors.{ok}
use tiny_cache.Dict.{lookup}
use tiny_cache.Domain.{validate_key}
use tiny_cache.StoreModels.{Env, new_entry}
use tiny_cache.SqliteStore.State.{SqliteStore, Row, Database, IsOrdered}
use tiny_cache.SqliteStore.Methods.{set}
use tiny_cache.SqliteStore.Checked.{entry_of}
use tiny_cache.SqliteStore.Contract.{
  IsSound, set-inserted, set-restored, lookup-set_ne, lookup-set_row_self, set_accepted,
}
use tiny_cache.SqliteStore.Conditional.{set_if_absent-live, compare_and_set-live, delete-row}
use tiny_cache.SqliteStore.Reads.{get-live}
use tiny_cache.SqliteStore.Runs.{Op, step, step-IsSound}
use tiny_cache.SqliteStore.Port.{sqlite_port}
use tiny_cache.Backends.{BackendView, IsBackend, set_outcome, has_entry}

has_entry-row :
    (env : Env) (row : Option Row)
    → elim row [ none ↦ false | some _ ↦ true ] ≡ has_entry (entry_of env row)
has_entry-row env none = refl
has_entry-row env (some row) = refl

either-entry :
    (env : Env) {P : Type 0} (d : Dec P) (row : Option Row)
    → entry_of env (ite d none row) ≡ ite d none (entry_of env row)
either-entry env (yes p) row = refl
either-entry env (no p) row = refl

module _ (env : Env) (db : Database) (order : IsOrdered db) (key : Text) (value : Bytes)
    (ttl : Option ℤ) (s : SqliteStore) (accepted : validate_key key ≡ ok tt)
    (sound : IsSound s) where
  set_answer : (set env db key value ttl s).0 ≡ set_outcome env value s.max_value_bytes
  set_answer = elim (dec_le (env.getsizeof value) s.max_value_bytes) [
    | yes small ↦
        let (u, e, _) = set-inserted env db order key value ttl s accepted sound small in
        rw (le→leb _ _ small) (ap (λ r. r.0) e)
    | no large ↦
        rw (lt→leb-false (env.getsizeof value) s.max_value_bytes (omega arith))
          (set-restored env db order key value ttl s accepted sound (omega arith)).0
  ]

  set_entry_after : entry_of env (lookup key (set env db key value ttl s).1.rows) ≡ (
      if leb (env.getsizeof value) s.max_value_bytes
      then some (new_entry env value ttl (env.clock s.reads))
      else entry_of env (lookup key s.rows))
  set_entry_after = elim (dec_le (env.getsizeof value) s.max_value_bytes) [
    | yes small ↦ rw (le→leb _ _ small) (
        rw (set_accepted env db order key value ttl s accepted sound)
          (lookup-set_row_self env db order key value ttl s sound env small))
    | no large ↦
        let (_, same, _, _, _) =
          set-restored env db order key value ttl s accepted sound (omega arith) in
        rw (lt→leb-false (env.getsizeof value) s.max_value_bytes (omega arith))
          (ap (entry_of env) (same key))
  ]

  set_entry_ne :
      (j : Text)
      → key ≢ j
      → (entry_of env (lookup j (set env db key value ttl s).1.rows)
          ≡ entry_of env (lookup j s.rows))
        ⊎ (entry_of env (lookup j (set env db key value ttl s).1.rows) ≡ none)
  set_entry_ne j h = elim (lookup-set_ne env db order key value ttl s accepted sound j h) [
    | inl same ↦ inl (ap (entry_of env) same)
    | inr gone ↦ inr (ap (entry_of env) gone)
  ]

abbrev pub sqlite_view : Env → BackendView SqliteStore
sqlite_view env = record {
  Holds = IsSound;
  entry = λ s key. entry_of env (lookup key s.rows);
  reads = λ s. s.reads;
  max_value_bytes = λ s. s.max_value_bytes;
}

-- The SQLite backend is a backend, with the agreement of its counters and its table as the
-- invariant.
pub sqlite-IsBackend :
    (env : Env) (db : Database)
    → IsOrdered db
    → IsBackend env (sqlite_port env db) (sqlite_view env)
unfolding step
sqlite-IsBackend env db order = record {
  get = λ key s accepted sound.
      let (answer, _, _, entries) = get-live env db key s accepted in
      (answer, entries, step-IsSound env db order (Op.get key) s sound);
  set = λ key value ttl s accepted sound. (
    set_answer env db order key value ttl s accepted sound,
    set_entry_after env db order key value ttl s accepted sound,
    set_entry_ne env db order key value ttl s accepted sound,
    step-IsSound env db order (Op.set key value ttl) s sound,
  );
  set_if_absent = λ key value ttl s accepted sound. (
    (set_if_absent-live env db order key value ttl s accepted sound).0,
    step-IsSound env db order (Op.set_if_absent key value ttl) s sound,
  );
  compare_and_set = λ key expected value ttl s accepted sound. (
    (compare_and_set-live env db order key value ttl s accepted sound expected).0,
    step-IsSound env db order (Op.compare_and_set key expected value ttl) s sound,
  );
  delete = λ key s accepted sound.
      let (answer, rows, _, _, _) = delete-row key s accepted in
      (
        answer ∙ ap ok (has_entry-row env (lookup key s.rows)),
        λ j. ap (entry_of env) (rows j) ∙ either-entry env (Text-discrete key j) (lookup j s.rows),
        step-IsSound env db order (Op.delete key) s sound,
      );
  stats = step-IsSound env db order Op.stats;
}
