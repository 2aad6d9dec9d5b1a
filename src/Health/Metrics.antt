-- ===== src/Health/Metrics.antt =====
-- The text for Prometheus.
use tiny_cache.Base.{ℕ, Text, codes, decimal, ◌++◌, List, [], ◌∷◌, ltb, if◌then◌else◌}
use tiny_cache.Results.{CacheStatsSnapshot}

-- Python's floating-point numbers, as far as they are used: a quotient of integers, `round(x, 2)`,
-- the zero, and the text of a formatted string.
pub record Floats : Type 1 where
  pub Float : Type 0
  pub ratio : ℕ → ℕ → Float
  pub round_two : Float → Float
  pub zero_float : Float
  pub float_text : Float → Text

-- the three lines of a metric
abbrev pub metric : Text → Text → Text → Text → List Text
metric name kind help value =
    (codes "# HELP " ++ name ++ codes " " ++ help)
    ∷ (codes "# TYPE " ++ name ++ codes " " ++ kind)
    ∷ (name ++ codes " " ++ value)
    ∷ []

-- `"\n".join(lines)`
abbrev pub joined : List Text → Text
joined [] = []
joined (line ∷ []) = line
joined (line ∷ next ∷ lines) = line ++ b'\n' ∷ joined (next ∷ lines)

module _ (f : Floats) where
  -- `used / available if available > 0 else 0.0`
  abbrev pub saturation : ℕ → ℕ → f.Float
  saturation used available = if ltb 0 available then f.ratio used available else f.zero_float

  unfoldable pub metrics_lines : CacheStatsSnapshot → ℕ → f.Float → List Text
  metrics_lines stats active_requests uptime =
      metric (codes "tiny_cache_hits_total") (codes "counter") (codes "Total cache hits")
        (decimal stats.hits)
      ++ metric (codes "tiny_cache_misses_total") (codes "counter") (codes "Total cache misses")
          (decimal stats.misses)
      ++ metric (codes "tiny_cache_evictions_total") (codes "counter")
          (codes "Total cache evictions") (decimal stats.evictions)
      ++ metric (codes "tiny_cache_lru_evictions_total") (codes "counter")
          (codes "Total LRU evictions") (decimal stats.lru_evictions)
      ++ metric (codes "tiny_cache_expired_removals_total") (codes "counter")
          (codes "Total expired entries removed") (decimal stats.expired_removals)
      ++ metric (codes "tiny_cache_rejected_oversize_total") (codes "counter")
          (codes "Total write rejections due to oversized values") (decimal stats.rejected_oversize)
      ++ metric (codes "tiny_cache_rejected_capacity_total") (codes "counter")
          (codes "Total write rejections due to exhausted capacity")
          (decimal stats.rejected_capacity)
      ++ metric (codes "tiny_cache_entries") (codes "gauge") (codes "Current number of entries")
          (decimal stats.size)
      ++ metric (codes "tiny_cache_memory_usage_bytes") (codes "gauge")
          (codes "Current memory usage in bytes (best-effort)") (decimal stats.memory_usage_bytes)
      ++ metric (codes "tiny_cache_capacity_max_items") (codes "gauge")
          (codes "Configured cache item capacity") (decimal stats.max_items)
      ++ metric (codes "tiny_cache_capacity_max_memory_bytes") (codes "gauge")
          (codes "Configured cache memory capacity in bytes") (decimal stats.max_memory_bytes)
      ++ metric (codes "tiny_cache_capacity_max_value_bytes") (codes "gauge")
          (codes "Configured maximum value size in bytes") (decimal stats.max_value_bytes)
      ++ metric (codes "tiny_cache_capacity_item_saturation_ratio") (codes "gauge")
          (codes "Entry count divided by max_items")
          (f.float_text (saturation stats.size stats.max_items))
      ++ metric (codes "tiny_cache_capacity_memory_saturation_ratio") (codes "gauge")
          (codes "Memory usage divided by max_memory_bytes")
          (f.float_text (saturation stats.memory_usage_bytes stats.max_memory_bytes))
      ++ metric (codes "tiny_cache_active_requests") (codes "gauge")
          (codes "Current in-flight gRPC requests") (decimal active_requests)
      ++ metric (codes "tiny_cache_uptime_seconds") (codes "gauge")
          (codes "Process uptime in seconds") (f.float_text uptime)
      ++ [] ∷ []
