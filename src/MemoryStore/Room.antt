-- ===== src/MemoryStore/Room.antt =====
-- What a write evicts to make room for its entry: as few entries as possible, the least recently
-- used first.
use tiny_cache.Base.{
  ℕ, suc, ◌+◌, ◌≤◌, ◌<◌, ◌≡◌, ap, ◌∙◌, sym, not, ◌&&◌, true, false, Bool-cases, inl, inr, ◌-◌, ◌≢◌,
  leb→le, Option, none, some, [], ◌∷◌, length, drop, length-drop, ltb, arith, le→leb, ltb-false→le,
  leb-false→lt,
}
use tiny_cache.Dict.{Dict}
use tiny_cache.Domain.{is_empty}
use tiny_cache.StoreModels.{CacheEntry}
use tiny_cache.MemoryStore.State.{CacheStore}
use tiny_cache.MemoryStore.Eviction.{evict_to_fit, is_over_memory}
use tiny_cache.MemoryStore.Writing.{free_memory, make_item_room, has_no_item_room}
use tiny_cache.MemoryStore.Sizes.{total}
use tiny_cache.MemoryStore.Evicted.{
  IsConsistent, evicted, evicted-IsConsistent, evicted-evicted, evicted-zero, evict_while-evicted,
}

-- The store without its first `n` entries has room for one more entry of the given size.
pub record HasRoom (s : CacheStore) (size n : ℕ) : Type 0 where
  pub memory : total (drop n s.store) + size ≤ s.max_memory_bytes
  pub items : length (drop n s.store) < s.max_items

is_over_memory-EndsOnEmpty :
    (size : ℕ) (s : CacheStore) (n : ℕ)
    → (evicted n s).store ≡ []
    → is_over_memory size (evicted n s) ≡ false
is_over_memory-EndsOnEmpty size s n h = ground arith

enough_free :
    (limit size : ℕ) (d : Dict CacheEntry)
    → size ≤ limit
    → (ltb limit (total d + size) && not (is_empty d)) ≡ false
    → total d + size ≤ limit
enough_free limit size [] h e = omega arith
enough_free limit size (x ∷ d) h e = ground arith

-- a loop that ended has freed enough, since nothing weighs nothing
fits_after :
    (size n : ℕ) (s : CacheStore)
    → size ≤ s.max_memory_bytes
    → is_over_memory size (evicted n s) ≡ false
    → total (drop n s.store) + size ≤ s.max_memory_bytes
unfolding evicted
fits_after size n s h e = enough_free s.max_memory_bytes size (drop n s.store) h e

over_before :
    (size n : ℕ) (s : CacheStore)
    → is_over_memory size (evicted n s) ≡ true
    → s.max_memory_bytes < total (drop n s.store) + size
unfolding evicted
over_before size n s e = ground arith

pub evict_to_fit-evicted :
    (size : ℕ) (s : CacheStore)
    → IsConsistent s
    → size ≤ s.max_memory_bytes
    → (n : ℕ) × (evict_to_fit size s ≡ (true, evicted n s))
      × (n ≤ length s.store)
      × (total (drop n s.store) + size ≤ s.max_memory_bytes)
      × ((m : ℕ) → m < n → s.max_memory_bytes < total (drop m s.store) + size)
unfolding evict_to_fit evicted
evict_to_fit-evicted size s c h =
    let (n, run, stops) =
      evict_while-evicted (suc (length s.store)) (is_over_memory size) s c
        (is_over_memory-EndsOnEmpty size s) (omega arith) in
    let fits = fits_after size n s h stops.ended in
    (
      n,
      cc (run, le→leb _ _ fits),
      stops.enough,
      fits,
      λ m l. over_before size m s (stops.needed m l),
    )

item_room-evicted :
    (s : CacheStore)
    → IsConsistent s
    → 0 < s.max_items
    → (n : ℕ) × (make_item_room none s ≡ (true, evicted n s))
      × (n ≤ length s.store)
      × (length s.store - n < s.max_items)
      × ((m : ℕ) → m < n → s.max_items ≤ length s.store - m)
unfolding make_item_room evicted
item_room-evicted s c h =
    let (n, run, stops) =
      evict_while-evicted (suc (length s.store)) has_no_item_room s c (λ n e. rw e (ground arith))
        (omega arith) in
    (
      n,
      run,
      stops.enough,
      omega (arith, leb-false→lt _ _ stops.ended, length-drop n s.store),
      λ m l. omega (arith, leb→le _ _ (stops.needed m l), length-drop m s.store),
    )

-- `n` is the least number of evictions that makes room.
pub record MakesRoom (s : CacheStore) (size n : ℕ) : Type 0 where
  pub enough : n ≤ length s.store
  pub room : HasRoom s size n
  pub needed : (m : ℕ) → m < n → ¬ (HasRoom s size m)

pub free_memory-evicted :
    (size : ℕ) (s : CacheStore)
    → IsConsistent s
    → size ≤ s.max_memory_bytes
    → (n : ℕ) × (free_memory size s ≡ (true, evicted n s))
      × (n ≤ length s.store)
      × (total (drop n s.store) + size ≤ s.max_memory_bytes)
      × ((m : ℕ) → m < n → s.max_memory_bytes < total (drop m s.store) + size)
unfolding free_memory
free_memory-evicted size s c h =
    elim (Bool-cases (ltb s.max_memory_bytes (s.current_memory_bytes + size))) [
      | inl over ↦ rw (over, free_memory) (evict_to_fit-evicted size s c h)
      | inr room ↦ (
        0,
        rw (room, free_memory) (ap (λ u. (true, u)) (sym (evicted-zero s c))),
        omega arith,
        omega (arith, ltb-false→le _ _ room),
        λ m l. elim l [ ],
      )
    ]

pub item_room_after :
    (s : CacheStore) (old_entry : Option CacheEntry) (n : ℕ)
    → IsConsistent s
    → 0 < s.max_items
    → n ≤ length s.store
    → (old_entry ≢ none → length s.store < s.max_items)
    → (k : ℕ) × (make_item_room old_entry (evicted n s) ≡ (true, evicted (n + k) s))
      × (n + k ≤ length s.store)
      × (length s.store - (n + k) < s.max_items)
      × ((m : ℕ) → n ≤ m → m < n + k → s.max_items ≤ length s.store - m)
unfolding evicted
item_room_after s none n c h e o =
    let (k, run, enough, room, needed) =
      item_room-evicted (evicted n s) (evicted-IsConsistent n s c) h in
    (
      k,
      run ∙ ap (λ u. (true, u)) (evicted-evicted k n s),
      omega (arith, length-drop n s.store),
      omega (arith, length-drop n s.store),
      λ m l b.
          let before = needed (m - n) (omega arith) in omega (arith, before, length-drop n s.store),
    )
item_room_after s (some old) n c h e o =
    let same : n ≡ n + 0 = omega arith in
    (
      0,
      unfold make_item_room in ap (λ m. (true, evicted m s)) same,
      omega arith,
      omega (arith, o (λ p. cc)),
      λ m l b. absurd (omega arith),
    )
