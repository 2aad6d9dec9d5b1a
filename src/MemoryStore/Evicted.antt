-- ===== src/MemoryStore/Evicted.antt =====
-- What an eviction loop leaves: the store without its first entries.
use tiny_cache.Base.{
  ℕ, zero, suc, ◌+◌, ◌≤◌, ◌<◌, ◌≡◌, refl, ap, ◌∙◌, sym, ◌-◌, true, false, Text, Bool, Bool-cases,
  inl, inr, [], ◌∷◌, length, drop, length-drop, drop-drop, List-cases, arith,
}
use tiny_cache.Dict.{Dict, lookup, remove, Distinct}
use tiny_cache.Dict.Laws.{remove_absent, drop-Distinct}
use tiny_cache.StoreModels.{CacheEntry}
use tiny_cache.MemoryStore.State.{CacheStore, remove_entry, evict_lru}
use tiny_cache.MemoryStore.Eviction.{evict_while}
use tiny_cache.MemoryStore.Sizes.{total}

-- The keys are distinct, and the byte counter is the size of what is stored.
pub record IsConsistent (s : CacheStore) : Type 0 where
  pub distinct : Distinct s.store
  pub counted : s.current_memory_bytes ≡ total s.store

-- The store after the `n` entries used least recently are evicted.
unfoldable pub evicted : ℕ → CacheStore → CacheStore
evicted n s = record s {
  store = drop n s.store;
  current_memory_bytes = total (drop n s.store);
  evictions = s.evictions + n;
  lru_evictions = s.lru_evictions + n;
}

pub evicted-IsConsistent : (n : ℕ) (s : CacheStore) → IsConsistent s → IsConsistent (evicted n s)
unfolding evicted
evicted-IsConsistent n s c = record {
  distinct = drop-Distinct n s.store c.distinct;
  counted = refl;
}

evict_lru-evicted :
    (s : CacheStore) (e : Text × CacheEntry) (d : Dict CacheEntry)
    → IsConsistent s
    → s.store ≡ e ∷ d
    → evict_lru s ≡ (true, evicted 1 s)
unfolding evict_lru remove_entry evicted lookup remove
evict_lru-evicted s (k, e) d c p = ground (arith, remove_absent k d)

pub evicted-zero : (s : CacheStore) → IsConsistent s → evicted 0 s ≡ s
unfolding evicted
evicted-zero s c = ground arith

pub evicted-evicted : (m n : ℕ) (s : CacheStore) → evicted m (evicted n s) ≡ evicted (n + m) s
unfolding evicted
evicted-evicted m n s = ground (arith, drop-drop m n s.store)

pub length-evicted : (n : ℕ) (s : CacheStore) → length (evicted n s).store ≡ length s.store - n
unfolding evicted
length-evicted n s = length-drop n s.store

evicted-suc : (n : ℕ) (s : CacheStore) → evicted n (evicted 1 s) ≡ evicted (suc n) s
evicted-suc n s =
    let e : 1 + n ≡ suc n = omega arith in evicted-evicted n 1 s ∙ ap (λ k. evicted k s) e

-- `n` is the number of evictions after which the test ends a loop, and no earlier.
pub record Stops (test : CacheStore → Bool) (s : CacheStore) (n : ℕ) : Type 0 where
  pub enough : n ≤ length s.store
  pub ended : test (evicted n s) ≡ false
  pub needed : (m : ℕ) → m < n → test (evicted m s) ≡ true

-- The test ends a loop when nothing is left to evict.
abbrev pub EndsOnEmpty : (CacheStore → Bool) → CacheStore → Type 0
EndsOnEmpty test s = (n : ℕ) → (evicted n s).store ≡ [] → test (evicted n s) ≡ false

EndsOnEmpty-step :
    (test : CacheStore → Bool) (s : CacheStore)
    → EndsOnEmpty test s
    → EndsOnEmpty test (evicted 1 s)
EndsOnEmpty-step test s e n = rw (evicted-suc n s) (e (suc n))

Stops-zero :
    (test : CacheStore → Bool) (s : CacheStore) → IsConsistent s → test s ≡ false → Stops test s 0
Stops-zero test s c h = record {
  enough = omega arith;
  ended = rw (evicted-zero s c) h;
  needed = λ m l. elim l [ ];
}

Stops-suc :
    (test : CacheStore → Bool) (s : CacheStore) (n : ℕ)
    → IsConsistent s
    → test s ≡ true
    → 0 < length s.store
    → Stops test (evicted 1 s) n
    → Stops test s (suc n)
Stops-suc test s n c h l r = record {
  enough = omega (arith, r.enough, length-evicted 1 s);
  ended = rw (evicted-suc n s) at r.ended;
  needed = λ m. elim m as (λ m. m < suc n → test (evicted m s) ≡ true) [
    | zero ↦ λ _. rw (evicted-zero s c) h
    | suc m ↦ λ lt. rw (evicted-suc m s) at (r.needed m (omega arith))
  ];
}

evict_while_step :
    (fuel : ℕ) (test : CacheStore → Bool) (s s' : CacheStore)
    → test s ≡ true
    → evict_lru s ≡ (true, s')
    → evict_while (suc fuel) test s ≡ evict_while fuel test s'
unfolding evict_while
evict_while_step fuel test s s' more step =
    rw (more, evict_while)
      (rw (ap (λ r. r.0) step, evict_while) (ap (λ r. evict_while fuel test r.1) step))

pub evict_while-evicted :
    (fuel : ℕ) (test : CacheStore → Bool) (s : CacheStore)
    → IsConsistent s
    → EndsOnEmpty test s
    → length s.store < fuel
    → (n : ℕ) × (evict_while fuel test s ≡ (true, evicted n s)) × Stops test s n
unfolding evict_while
evict_while-evicted zero test s c e l = absurd (omega arith)
evict_while-evicted (suc fuel) test s c e l = elim (Bool-cases (test s)) [
  | inl more ↦ elim (List-cases s.store) [
    | inl none_left ↦ cc (e 0 (rw (evicted-zero s c) none_left), evicted-zero s c)
    | inr (x, d, p) ↦
        let step = evict_lru-evicted s x d c p in
        let filled : 0 < length s.store = rw p (omega arith) in
        let shorter : length (evicted 1 s).store < fuel = omega (arith, length-evicted 1 s) in
        let (n, run, stops) =
          evict_while-evicted fuel test (evicted 1 s) (evicted-IsConsistent 1 s c)
            (EndsOnEmpty-step test s e) shorter in
        (
          suc n,
          evict_while_step fuel test s (evicted 1 s) more step
              ∙ run
              ∙ ap (λ u. (true, u)) (evicted-suc n s),
          Stops-suc test s n c more filled stops,
        )
  ]
  | inr done ↦ (
    0,
    rw (done, evict_while) (ap (λ u. (true, u)) (sym (evicted-zero s c))),
    Stops-zero test s c done,
  )
]
