-- ===== src/SqliteStore/Preserved.antt =====
-- What every operation of the SQLite backend keeps.
use tiny_cache.Base.{
  ℕ, ◌+◌, ◌≤◌, ◌≡◌, refl, ap, sym, ◌∙◌, Text, Text-discrete, Bytes, ℤ, ite, Option, none,
  Option-cases, inl, inr, [], ◌∷◌, length, dec_le, arith,
}
use tiny_cache.Dict.{Dict, lookup, Distinct}
use tiny_cache.Results.{CacheConditionalSetStatus}
use tiny_cache.StoreModels.{Env, new_entry}
use tiny_cache.SqliteStore.State.{
  SqliteStore, Row, Database, IsOrdered, sum_sizes, insert_row, remove_row, remove_expired_row,
  restore_row,
}
use tiny_cache.SqliteStore.Expiry.{is_expired, remove_if_expired}
use tiny_cache.SqliteStore.Methods.{get_row, set_row, add_row, exchange_row, touch, conditionally}
use tiny_cache.SqliteStore.Writing.{store_value}
use tiny_cache.SqliteStore.Consistent.{IsConsistent, remove_row-IsConsistent}
use tiny_cache.SqliteStore.Evicted.{Evicting-SameFrame}
use tiny_cache.SqliteStore.Written.{
  refused, refused-IsConsistent, refused-counters, written-within, inserted-IsConsistent,
  started-frame,
}
use tiny_cache.SqliteStore.Checked.{
  live_row, checked, checked-gone, checked-IsConsistent, checked-frame, get_row-checked,
  add_row-checked, exchange_row-checked,
}
use tiny_cache.SqliteStore.Contract.{IsSound, Evicted, set_row-written, set_row-refused}

-- A sound store whose table has not grown over the bounds, which are no smaller than its limits.
pub record IsBounded (memory_bound items_bound : ℕ) (s : SqliteStore) : Type 0 where
  pub sound : IsSound s
  pub memory_limit : s.max_memory_bytes ≤ memory_bound
  pub items_limit : s.max_items ≤ items_bound
  pub memory : s.current_memory_bytes ≤ memory_bound
  pub entries : s.entry_count ≤ items_bound

-- Two stores with the same limits of which the second holds no more.
pub record Shrinks (s u : SqliteStore) : Type 0 where
  pub items : u.max_items ≡ s.max_items
  pub memory : u.max_memory_bytes ≡ s.max_memory_bytes
  pub value : u.max_value_bytes ≡ s.max_value_bytes
  pub less : u.current_memory_bytes ≤ s.current_memory_bytes
  pub fewer : u.entry_count ≤ s.entry_count

module _ {m n : ℕ} where
  pub Shrinks-IsBounded :
      {s u : SqliteStore} → Shrinks s u → IsConsistent u → IsBounded m n s → IsBounded m n u
  Shrinks-IsBounded h c b = record {
    sound = record {
      consistent = c;
      items = omega (arith, h.items, b.sound.items);
      value-le-memory = omega (arith, h.value, h.memory, b.sound.value-le-memory);
    };
    memory_limit = omega (arith, h.memory, b.memory_limit);
    items_limit = omega (arith, h.items, b.items_limit);
    memory = omega (arith, h.less, b.memory);
    entries = omega (arith, h.fewer, b.entries);
  }

length-touch : (key : Text) (now : ℕ) (rows : Dict Row) → length (touch key now rows) ≡ length rows
unfolding touch
length-touch key now [] = refl
length-touch key now ((j, row) ∷ rows) = ground (arith, length-touch key now rows)

sum_sizes-touch :
    (key : Text) (now : ℕ) (rows : Dict Row) → sum_sizes (touch key now rows) ≡ sum_sizes rows
unfolding touch
sum_sizes-touch key now [] = refl
sum_sizes-touch key now ((j, row) ∷ rows) = ground (arith, sum_sizes-touch key now rows)

lookup-touch-none :
    (key : Text) (now : ℕ) (rows : Dict Row) (j : Text)
    → lookup j rows ≡ none
    → lookup j (touch key now rows) ≡ none
unfolding touch lookup
lookup-touch-none key now [] j h = h
lookup-touch-none key now ((i, row) ∷ rows) j h =
    ground (arith, h, lookup-touch-none key now rows j)

touch-Distinct :
    (key : Text) (now : ℕ) (rows : Dict Row) → Distinct rows → Distinct (touch key now rows)
unfolding touch
touch-Distinct key now [] d = tt
touch-Distinct key now ((j, row) ∷ rows) d =
    (lookup-touch-none key now rows j d.0, touch-Distinct key now rows d.1)

remove_row-Shrinks : (key : Text) (s : SqliteStore) → Shrinks s (remove_row key s).1
unfolding remove_row
remove_row-Shrinks key s = elim (Option-cases (lookup key s.rows)) [
  | inl p ↦
      rw (p, remove_row)
        (record {
          items = refl;
          memory = refl;
          value = refl;
          less = omega arith;
          fewer = omega arith;
        })
  | inr (row, p) ↦
      rw (p, remove_row)
        (record {
          items = refl;
          memory = refl;
          value = refl;
          less = omega arith;
          fewer = omega arith;
        })
]

module _ (env : Env) where
  checked-Shrinks : (key : Text) (s : SqliteStore) → Shrinks s (checked env key s)
  unfolding remove_if_expired remove_expired_row remove_row is_expired
  checked-Shrinks key s =
      let (value, memory, items, _, _) = checked-frame env key s in
      record {
        items = items;
        memory = memory;
        value = value;
        less = ground arith;
        fewer = ground arith;
      }

module _ (env : Env) {m n : ℕ} where
  pub checked-IsBounded :
      (key : Text) (s : SqliteStore) → IsBounded m n s → IsBounded m n (checked env key s)
  checked-IsBounded key s b =
      Shrinks-IsBounded (checked-Shrinks env key s)
        (checked-IsConsistent env key s b.sound.consistent) b

-- a sound store is bounded by what it may hold and holds
pub IsSound-IsBounded :
    (s : SqliteStore)
    → IsSound s
    → IsBounded (s.max_memory_bytes + s.current_memory_bytes) (s.max_items + s.entry_count) s
IsSound-IsBounded s sound = record {
  sound = sound;
  memory_limit = omega arith;
  items_limit = omega arith;
  memory = omega arith;
  entries = omega arith;
}

pub checked-IsSound :
    (env : Env) (key : Text) (s : SqliteStore) → IsSound s → IsSound (checked env key s)
checked-IsSound env key s sound = (checked-IsBounded env key s (IsSound-IsBounded s sound)).sound

module _ {m n : ℕ} where
  pub remove_row-IsBounded :
      (key : Text) (s : SqliteStore) → IsBounded m n s → IsBounded m n (remove_row key s).1
  remove_row-IsBounded key s b =
      Shrinks-IsBounded (remove_row-Shrinks key s)
        (remove_row-IsConsistent key s b.sound.consistent) b

module _ (env : Env) (db : Database) {m n : ℕ} (key : Text) (s : SqliteStore)
    (b : IsBounded m n s) where
  pub get_row-IsBounded : IsBounded m n (get_row env db key s).1
  get_row-IsBounded =
      let c = checked-IsBounded env key s b in
      let now = env.clock (checked env key s).reads in
      let rows = (checked env key s).rows in
      let k = c.sound.consistent in
      rw (get_row-checked env key s db) (elim (Option-cases (live_row env s key)) [
        | inl p ↦ rw p (
            Shrinks-IsBounded
              (record {
                items = refl;
                memory = refl;
                value = refl;
                less = omega arith;
                fewer = omega arith;
              })
              (record { distinct = k.distinct; counted = k.counted; entries = k.entries }) c)
        | inr (e, p) ↦ rw p (
            Shrinks-IsBounded
              (record {
                items = refl;
                memory = refl;
                value = refl;
                less = omega arith;
                fewer = omega arith;
              })
              (record {
                distinct = touch-Distinct key now rows k.distinct;
                counted = k.counted ∙ sym (sum_sizes-touch key now rows);
                entries = k.entries ∙ sym (length-touch key now rows);
              })
              c)
      ])

pub set_row_same :
    (env : Env) (db : Database) (key : Text) (value : Bytes) (ttl : Option ℤ) (s : SqliteStore)
    → lookup key s.rows ≡ none
    → store_value env db key value ttl none s ≡ set_row env db key value ttl s
unfolding set_row
set_row_same env db key value ttl s p = ap (λ o. store_value env db key value ttl o s) (sym p)

either-IsBounded :
    {P A : Type 0} {m n : ℕ} (d : Dec P) (x y : A × SqliteStore)
    → IsBounded m n x.1
    → IsBounded m n y.1
    → IsBounded m n (ite d x y).1
either-IsBounded (yes p) x y h g = h
either-IsBounded (no p) x y h g = g

module _ (env : Env) (db : Database) (order : IsOrdered db) {m n : ℕ} (key : Text) (value : Bytes)
    (ttl : Option ℤ) where
  refused-IsBounded :
      (s : SqliteStore) (b : IsBounded m n s)
      → IsBounded m n
          (refused env db order key value ttl (lookup key s.rows) s refl b.sound.consistent)
  unfolding restore_row remove_row
  refused-IsBounded s b =
      let c = b.sound.consistent in
      let old = lookup key s.rows in
      let (memory, count, _) = refused-counters env db order key value ttl old s refl c in
      Shrinks-IsBounded
        (record {
          items = ground arith;
          memory = ground arith;
          value = ground arith;
          less = omega (arith, memory);
          fewer = omega (arith, count);
        })
        (refused-IsConsistent env db order key value ttl old s refl c) b

  written-IsBounded :
      (s : SqliteStore) (b : IsBounded m n s)
      → env.getsizeof value ≤ s.max_value_bytes
      → (u : SqliteStore) → Evicted env db order key value ttl s b.sound u
      → IsBounded m n (insert_row env key (new_entry env value ttl (env.clock s.reads)) u)
  unfolding insert_row
  written-IsBounded s b small u evicted =
      let c = b.sound.consistent in
      let old = lookup key s.rows in
      let limit = b.sound.value-le-memory in
      let (memory, count) =
        written-within env db order key value ttl old s refl c u (omega arith) evicted in
      let (items, bytes, sizes) = started-frame env db order key value ttl old s refl c in
      let first = Evicting-SameFrame evicted.memory in
      let next = Evicting-SameFrame evicted.items in
      record {
        sound = record {
          consistent = inserted-IsConsistent env db order key value ttl old s refl c u evicted;
          items = omega (arith, items, first.items, next.items, b.sound.items);
          value-le-memory =
              omega
                (arith, bytes, sizes, first.memory, next.memory, first.value, next.value, limit);
        };
        memory_limit = omega (arith, bytes, first.memory, next.memory, b.memory_limit);
        items_limit = omega (arith, items, first.items, next.items, b.items_limit);
        memory = omega (arith, memory, b.memory_limit);
        entries = elim (Option-cases old) [
          | inl p ↦ omega (arith, rw p at count, b.items_limit)
          | inr (row, p) ↦ omega (arith, rw p at count, b.entries)
        ];
      }

  pub set_row-IsBounded :
      (s : SqliteStore) → IsBounded m n s → IsBounded m n (set_row env db key value ttl s).1
  set_row-IsBounded s b = elim (dec_le (env.getsizeof value) s.max_value_bytes) [
    | no large ↦
        rw (set_row-refused env db order key value ttl s b.sound (omega arith))
          (refused-IsBounded s b)
    | yes small ↦
        let (u, e, evicted) = set_row-written env db order key value ttl s b.sound small in
        rw e (written-IsBounded s b small u evicted)
  ]

  pub add_row-IsBounded :
      (s : SqliteStore) → IsBounded m n s → IsBounded m n (add_row env db key value ttl s).1
  add_row-IsBounded s b =
      let c = checked-IsBounded env key s b in
      rw (add_row-checked env key s db value ttl) (elim (Option-cases (live_row env s key)) [
        | inl p ↦ rw p (
            rw (set_row_same env db key value ttl (checked env key s) (checked-gone env key s p))
              (set_row-IsBounded (checked env key s) c))
        | inr (e, p) ↦ rw p c
      ])

  pub exchange_row-IsBounded :
      (expected : Bytes) (s : SqliteStore)
      → IsBounded m n s
      → IsBounded m n (exchange_row env db key expected value ttl s).1
  exchange_row-IsBounded expected s b =
      let c = checked-IsBounded env key s b in
      rw (exchange_row-checked env key s db expected value ttl)
        (elim (Option-cases (live_row env s key)) [
          | inl p ↦ rw p c
          | inr (e, p) ↦ rw p (
              either-IsBounded (Text-discrete e.value expected)
                (conditionally (set_row env db key value ttl (checked env key s)))
                (CacheConditionalSetStatus.mismatch, checked env key s)
                (set_row-IsBounded (checked env key s) c) c)
        ])
