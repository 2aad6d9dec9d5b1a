-- ===== src/SqliteStore/Reads.antt =====
-- Reads of the SQLite backend: what `get` returns, and what it changes.
use tiny_cache.Base.{
  ℕ, ◌+◌, ◌*◌, ◌≤◌, ◌≡◌, refl, ap, sym, ◌∙◌, Text, Text-discrete, Bytes, ℤ, ite, if_pos, if_neg,
  Option, none, some, Option-cases, inl, inr, leb, if◌then◌else◌, [], ◌∷◌, arith,
}
use tiny_cache.Errors.{ok}
use tiny_cache.Dict.{Dict, lookup}
use tiny_cache.Domain.{validate_key}
use tiny_cache.StoreModels.{Env, CacheEntry, normalize_ttl}
use tiny_cache.StoreModels.Live.{live, value_of, live-new_entry}
use tiny_cache.SqliteStore.State.{SqliteStore, Row, Database, IsOrdered, row_to_entry}
use tiny_cache.SqliteStore.Methods.{get, set, touch}
use tiny_cache.SqliteStore.Checked.{
  entry_of, live_row, checked, checked-gone, checked-stays, lookup-checked_ne, get_row-checked,
  checked-frame,
}
use tiny_cache.SqliteStore.Contract.{IsSound, set_accepted, lookup-set_row_self}

-- `UPDATE` changes no key, no value and no size.
pub lookup-touch :
    (env : Env) (key : Text) (now : ℕ) (rows : Dict Row) (j : Text)
    → entry_of env (lookup j (touch key now rows)) ≡ entry_of env (lookup j rows)
unfolding touch row_to_entry lookup
lookup-touch env key now [] j = refl
lookup-touch env key now ((i, row) ∷ rows) j = elim (Text-discrete i j) [
  | yes p ↦ ground (arith, p)
  | no p ↦ ground (arith, p, lookup-touch env key now rows j)
]

module _ (env : Env) (key : Text) (s : SqliteStore) where
  lookup-checked_self : entry_of env (lookup key (checked env key s).rows) ≡ live_row env s key
  lookup-checked_self = elim (Option-cases (live_row env s key)) [
    | inl dead ↦ ap (entry_of env) (checked-gone env key s dead) ∙ sym dead
    | inr (e, alive) ↦
        let (row, found, same, rows) = checked-stays env key s e alive in
        ap (λ r. entry_of env (lookup key r)) rows
        ∙ ap (entry_of env) found
        ∙ ap some same
        ∙ sym alive
  ]

  -- the check drops the entry of the key if it has expired, and no other
  pub lookup-checked :
      (j : Text)
      → entry_of env (lookup j (checked env key s).rows)
        ≡ ite (Text-discrete key j) (live_row env s key) (entry_of env (lookup j s.rows))
  lookup-checked j = elim (Text-discrete key j) [
    | yes p ↦
        ap (λ i. entry_of env (lookup i (checked env key s).rows)) (sym p)
        ∙ lookup-checked_self
        ∙ sym (if_pos (Text-discrete key j) p _ _)
    | no p ↦
        ap (entry_of env) (lookup-checked_ne env key s j p)
        ∙ sym (if_neg (Text-discrete key j) p _ _)
  ]

module _ (env : Env) (db : Database) (key : Text) (s : SqliteStore)
    (accepted : validate_key key ≡ ok tt) where
  -- `get` returns the value of the live entry, and nothing if there is none; it counts one hit or
  -- one miss accordingly, deletes the row if the entry has expired, and changes no other entry.
  pub get-live :
      ((get env db key s).0 ≡ ok (value_of (live_row env s key)))
      × ((get env db key s).1.hits
          ≡ elim (live_row env s key) [ none ↦ s.hits | some _ ↦ s.hits + 1 ])
      × ((get env db key s).1.misses
          ≡ elim (live_row env s key) [ none ↦ s.misses + 1 | some _ ↦ s.misses ])
      × ((j : Text)
          → entry_of env (lookup j (get env db key s).1.rows)
            ≡ ite (Text-discrete key j) (live_row env s key) (entry_of env (lookup j s.rows)))
  unfolding get
  get-live =
      let after = checked env key s in
      let (_, _, _, hits, misses) = checked-frame env key s in
      elim (Option-cases (live_row env s key)) [
        | inl miss ↦
            rw (accepted, get)
              (rw (get_row-checked env key s db)
                (rw miss (refl, hits, refl, rw miss at (lookup-checked env key s))))
        | inr (e, hit) ↦
            rw (accepted, get)
              (rw (get_row-checked env key s db) (
                rw hit (
                  refl,
                  refl,
                  misses,
                  λ j.
                      lookup-touch env key (env.clock after.reads) after.rows j
                      ∙ (rw hit at (lookup-checked env key s j)),
                )))
      ]

module _ (env : Env) (db : Database) (order : IsOrdered db) (key : Text) (value : Bytes)
    (ttl : Option ℤ) (s : SqliteStore) (accepted : validate_key key ≡ ok tt)
    (sound : IsSound s) where
  -- What was set is read back until it expires, also by another process that opens the table
  -- later, as long as the row still holds the entry: a `get` returns the value if the TTL was
  -- absent or not positive, and otherwise exactly while the clock of the process that reads shows
  -- less than `ttl` of its seconds past the time that the clock of the process that wrote showed.
  pub get-set_elsewhere :
      (there : Env) (db' : Database) (later : SqliteStore)
      → env.getsizeof value ≤ s.max_value_bytes
      → entry_of there (lookup key later.rows)
        ≡ entry_of there (lookup key (set env db key value ttl s).1.rows)
      → (get there db' key later).0
        ≡ ok (elim (normalize_ttl ttl) [
          | none ↦ some value
          | some t ↦
              if leb (env.clock s.reads + t * there.second) (there.clock later.reads)
              then none
              else some value
        ])
  get-set_elsewhere there db' later small same =
      let now = there.clock later.reads in
      let written =
        ap (λ (rows : Dict Row). entry_of there (lookup key rows))
          (set_accepted env db order key value ttl s accepted sound)
        ∙ lookup-set_row_self env db order key value ttl s sound there small in
      (get-live there db' key later accepted).0
      ∙ ap (λ (e : Option CacheEntry). ok (value_of (live there now e))) (same ∙ written)
      ∙ ap ok (live-new_entry there value ttl (env.clock s.reads) now)
