-- ===== src/StoreModels.antt =====
-- tiny_cache/infrastructure/memory_store_models.py: entries and limits, which both backends share,
-- and what a store takes from outside: the clock and `sys.getsizeof`.
pub mod Live
use tiny_cache.Base.{
  ℕ, zero, suc, ◌+◌, ◌*◌, ◌≡◌, ◌≤◌, ◌<◌, min, arith, Bytes, Bool, false, not, Option, none, some, ℤ,
  pos, negsuc, pos_part, is_positive, leb,
}
use tiny_cache.Errors.{
  Result, ok, value_error, max_items_below_one, max_memory_mb_below_one, cleanup_interval_below_one,
  max_value_bytes_below_one, Message, raise_if, chain_returned, ◌>>=◌, ◌>>◌,
}

-- `clock n` is what the store's `n`-th call of its clock returns, in ticks; a second has `second`
-- ticks. `getsizeof` is Python's `sys.getsizeof` on bytes.
pub record Env : Type 0 where
  pub clock : ℕ → ℕ
  pub second : ℕ
  pub getsizeof : Bytes → ℕ

-- What `time.monotonic` promises: a later call returns no smaller time.
pub record IsMonotonic (env : Env) : Type 0 where
  pub ticks : 0 < env.second
  pub later : (m n : ℕ) → m ≤ n → env.clock m ≤ env.clock n

pub record CacheEntry : Type 0 where
  pub value : Bytes
  pub ttl : Option ℕ
  pub created_at : ℕ
  pub size_bytes : ℕ

-- `None if ttl is not None and ttl <= 0 else ttl`: what is left is a natural number.
abbrev pub normalize_ttl : Option ℤ → Option ℕ
normalize_ttl none = none
normalize_ttl (some (pos zero)) = none
normalize_ttl (some (pos (suc n))) = some (suc n)
normalize_ttl (some (negsuc n)) = none

-- `CacheEntry(value, ttl, created_at)`
unfoldable pub new_entry : Env → Bytes → Option ℤ → ℕ → CacheEntry
new_entry env value ttl created_at = record {
  value = value;
  ttl = normalize_ttl ttl;
  created_at = created_at;
  size_bytes = env.getsizeof value;
}

-- `now - created_at >= ttl` seconds, with the subtraction moved to the other side.
unfoldable pub has_expired : Env → ℕ → CacheEntry → Bool
has_expired env now entry = elim entry.ttl [
  | none ↦ false
  | some ttl ↦ leb (entry.created_at + ttl * env.second) now
]

abbrev pub default_max_items : ℕ
default_max_items = 1000

abbrev pub default_max_memory_mb : ℕ
default_max_memory_mb = 100

abbrev pub default_cleanup_interval : ℕ
default_cleanup_interval = 10

pub record CacheStoreLimits : Type 0 where
  pub max_items : ℕ
  pub max_memory_bytes : ℕ
  pub max_value_bytes : ℕ
  pub cleanup_interval : ℕ

-- `default if given is None else given`, raising below 1
unfoldable pub at_least_one : Option ℤ → ℕ → (ℤ → Message) → Result ℕ
at_least_one none default message = do
  raise_if (not (is_positive (pos default))) (value_error (message (pos default)))
  ok default
at_least_one (some given) default message = do
  raise_if (not (is_positive given)) (value_error (message given))
  ok (pos_part given)

-- `CacheStoreLimits.resolve`
unfoldable pub resolve : Option ℤ → Option ℤ → Option ℤ → Option ℤ → Result CacheStoreLimits
resolve max_items max_memory_mb cleanup_interval max_value_bytes = do
  resolved_max_items ← at_least_one max_items default_max_items max_items_below_one
  resolved_max_memory_mb ← at_least_one max_memory_mb default_max_memory_mb max_memory_mb_below_one
  resolved_cleanup_interval ←
      at_least_one cleanup_interval default_cleanup_interval cleanup_interval_below_one
  let resolved_max_memory_bytes = resolved_max_memory_mb * 1024 * 1024
  resolved_max_value_bytes ←
      at_least_one max_value_bytes resolved_max_memory_bytes max_value_bytes_below_one
  ok (record {
    max_items = resolved_max_items;
    max_memory_bytes = resolved_max_memory_bytes;
    max_value_bytes = min resolved_max_value_bytes resolved_max_memory_bytes;
    cleanup_interval = resolved_cleanup_interval;
  })

-- Limits under which a store works.
pub record AreUsable (limits : CacheStoreLimits) : Type 0 where
  pub items : 0 < limits.max_items
  pub memory : 0 < limits.max_memory_bytes
  pub value : 0 < limits.max_value_bytes
  pub value-le-memory : limits.max_value_bytes ≤ limits.max_memory_bytes
  pub interval : 0 < limits.cleanup_interval

at_least_one_pos :
    (given : Option ℤ) (default : ℕ) (message : ℤ → Message) (n : ℕ)
    → at_least_one given default message ≡ ok n
    → 0 < n
unfolding at_least_one
at_least_one_pos none zero message n h = cc
at_least_one_pos none (suc d) message n h = ground arith
at_least_one_pos (some (pos zero)) default message n h = cc
at_least_one_pos (some (pos (suc k))) default message n h = ground arith
at_least_one_pos (some (negsuc k)) default message n h = cc

limits-AreUsable :
    (i m c v : ℕ) {limits : CacheStoreLimits}
    → 0 < i
    → 0 < m
    → 0 < c
    → 0 < v
    → ◌≡◌ {A = Result CacheStoreLimits}
        (ok (record {
          max_items = i;
          max_memory_bytes = m * 1024 * 1024;
          max_value_bytes = min v (m * 1024 * 1024);
          cleanup_interval = c;
        }))
        (ok limits)
    → AreUsable limits
limits-AreUsable i m c v hi hm hc hv e = ground arith

-- Limits that `resolve` accepts are usable, whatever was given.
pub resolve-AreUsable :
    (max_items max_memory_mb cleanup_interval max_value_bytes : Option ℤ)
    {limits : CacheStoreLimits}
    → resolve max_items max_memory_mb cleanup_interval max_value_bytes ≡ ok limits
    → AreUsable limits
unfolding resolve
resolve-AreUsable a b c d h =
    let (i, hi, h₁) = chain_returned (at_least_one a _ _) _ h in
    let (m, hm, h₂) = chain_returned (at_least_one b _ _) _ h₁ in
    let (n, hn, h₃) = chain_returned (at_least_one c _ _) _ h₂ in
    let (v, hv, h₄) = chain_returned (at_least_one d _ _) _ h₃ in
    limits-AreUsable i m n v (at_least_one_pos a _ _ i hi) (at_least_one_pos b _ _ m hm)
      (at_least_one_pos c _ _ n hn) (at_least_one_pos d _ _ v hv) h₄
