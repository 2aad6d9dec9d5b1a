-- ===== src/MemoryStore/Sizes.antt =====
-- The total size of the entries in a store's dict, and properties that hold of every entry.
use tiny_cache.Base.{
  ℕ, zero, suc, ◌+◌, ◌≤◌, ◌≡◌, Text, Text-discrete, some, [], ◌∷◌, ◌++◌, drop, arith, if_pos,
  if_neg, subst,
}
use tiny_cache.Dict.{Dict, lookup, remove, Distinct}
use tiny_cache.Dict.Laws.{remove_absent}
use tiny_cache.StoreModels.{CacheEntry}

abbrev pub total : Dict CacheEntry → ℕ
total [] = 0
total ((_, e) ∷ d) = e.size_bytes + total d

abbrev pub Every : (CacheEntry → Type 0) → Dict CacheEntry → Type 0
Every P [] = Unit
Every P ((_, e) ∷ d) = P e × Every P d

pub total-remove :
    (k : Text) (d : Dict CacheEntry) (e : CacheEntry)
    → Distinct d
    → lookup k d ≡ some e
    → total (remove k d) + e.size_bytes ≡ total d
unfolding lookup remove
total-remove k [] e g h = cc
total-remove k ((i, f) ∷ d) e g h = ground (arith, total-remove k d e g.1, remove_absent k d)

pub total-append : (d f : Dict CacheEntry) → total (d ++ f) ≡ total d + total f
total-append [] f = omega arith
total-append ((i, e) ∷ d) f = omega (arith, total-append d f)

pub total-drop_mono : (m n : ℕ) (d : Dict CacheEntry) → m ≤ n → total (drop n d) ≤ total (drop m d)
total-drop_mono zero zero d h = omega arith
total-drop_mono zero (suc n) [] h = omega arith
total-drop_mono zero (suc n) ((_, e) ∷ d) h = omega (arith, total-drop_mono zero n d (omega arith))
total-drop_mono (suc m) zero d h = absurd (omega arith)
total-drop_mono (suc m) (suc n) [] h = omega arith
total-drop_mono (suc m) (suc n) (x ∷ d) h = total-drop_mono m n d (omega arith)

pub total-remove-le : (k : Text) (d : Dict CacheEntry) → total (remove k d) ≤ total d
unfolding remove
total-remove-le k [] = omega arith
total-remove-le k ((i, e) ∷ d) = ground (arith, total-remove-le k d)

module _ (P : CacheEntry → Type 0) where
  pub remove-Every : (k : Text) (d : Dict CacheEntry) → Every P d → Every P (remove k d)
  unfolding remove
  remove-Every k [] h = tt
  remove-Every k ((i, e) ∷ d) h = elim (Text-discrete i k) [
    | yes p ↦ rw (if_pos _ p) (remove-Every k d h.1)
    | no p ↦ rw (if_neg _ p) (h.0, remove-Every k d h.1)
  ]

  pub drop-Every : (n : ℕ) (d : Dict CacheEntry) → Every P d → Every P (drop n d)
  drop-Every zero d h = h
  drop-Every (suc n) [] h = tt
  drop-Every (suc n) (x ∷ d) h = drop-Every n d h.1

  pub snoc-Every :
      (k : Text) (e : CacheEntry) (d : Dict CacheEntry)
      → Every P d
      → P e
      → Every P (d ++ (k, e) ∷ [])
  snoc-Every k e [] h p = (p, tt)
  snoc-Every k e (x ∷ d) h p = (h.0, snoc-Every k e d h.1 p)

  pub lookup-Every :
      (k : Text) (d : Dict CacheEntry) (e : CacheEntry) → Every P d → lookup k d ≡ some e → P e
  unfolding lookup
  lookup-Every k [] e h q = cc
  lookup-Every k ((i, f) ∷ d) e h q = elim (Text-discrete i k) [
    | yes p ↦ let same : f ≡ e = ground arith in subst P same h.0
    | no p ↦ lookup-Every k d e h.1 (ground arith)
  ]
