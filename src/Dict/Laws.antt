-- ===== src/Dict/Laws.antt =====
-- What can be read from a dict after each operation, and that keys stay distinct.
use tiny_cache.Base.{
  ℕ, zero, suc, ◌+◌, ◌≤◌, ◌≡◌, ◌≢◌, refl, Text, Text-discrete, ite, none, some, [], ◌∷◌, ◌++◌,
  length, drop, Option-cases, inl, inr, ◌∙◌, arith,
}
use tiny_cache.Dict.{Dict, lookup, remove, put, move_to_end, Distinct}

module _ {ℓ} {V : Type ℓ} where
  pub lookup-remove :
      (k j : Text) (d : Dict V) → lookup j (remove k d) ≡ ite (Text-discrete k j) none (lookup j d)
  unfolding lookup remove
  lookup-remove k j [] = ground arith
  lookup-remove k j ((i, v) ∷ d) = ground (arith, lookup-remove k j d)

  pub lookup-remove_self : (k : Text) (d : Dict V) → lookup k (remove k d) ≡ none
  lookup-remove_self k d = ground (arith, lookup-remove k k d)

  pub lookup-remove_ne : (k j : Text) (d : Dict V) → k ≢ j → lookup j (remove k d) ≡ lookup j d
  lookup-remove_ne k j d h = ground (arith, lookup-remove k j d)

  pub remove_absent : (k : Text) (d : Dict V) → lookup k d ≡ none → remove k d ≡ d
  unfolding lookup remove
  remove_absent k [] h = refl
  remove_absent k ((i, v) ∷ d) h = ground (arith, remove_absent k d)

  pub put_absent :
      (k : Text) (v : V) (d : Dict V) → lookup k d ≡ none → put k v d ≡ d ++ (k, v) ∷ []
  unfolding lookup put
  put_absent k v [] h = refl
  put_absent k v ((i, w) ∷ d) h = ground (arith, put_absent k v d)

  pub lookup-append :
      (k : Text) (d e : Dict V)
      → lookup k (d ++ e) ≡ elim (lookup k d) [ none ↦ lookup k e | some v ↦ some v ]
  unfolding lookup
  lookup-append k [] e = refl
  lookup-append k ((i, w) ∷ d) e = ground (arith, lookup-append k d e)

  pub lookup-snoc_self :
      (k : Text) (v : V) (d : Dict V) → lookup k d ≡ none → lookup k (d ++ (k, v) ∷ []) ≡ some v
  unfolding lookup
  lookup-snoc_self k v d h = ground (arith, lookup-append k d ((k, v) ∷ []))

  pub lookup-snoc_ne :
      (k j : Text) (v : V) (d : Dict V) → k ≢ j → lookup j (d ++ (k, v) ∷ []) ≡ lookup j d
  unfolding lookup
  lookup-snoc_ne k j v d h = ground (arith, lookup-append j d ((k, v) ∷ []))

  pub remove-snoc :
      (k : Text) (v : V) (d : Dict V) → lookup k d ≡ none → remove k (d ++ (k, v) ∷ []) ≡ d
  unfolding lookup remove
  remove-snoc k v [] h = ground arith
  remove-snoc k v ((i, w) ∷ d) h = ground (arith, remove-snoc k v d)

  -- `d[k] = v; d.move_to_end(k)` for a new key
  pub move_to_end-put :
      (k : Text) (v : V) (d : Dict V)
      → lookup k d ≡ none
      → move_to_end k (put k v d) ≡ d ++ (k, v) ∷ []
  unfolding move_to_end
  move_to_end-put k v d h =
      rw (put_absent k v d h) (ground (arith, lookup-snoc_self k v d h, remove-snoc k v d h))

  pub remove-Distinct : (k : Text) (d : Dict V) → Distinct d → Distinct (remove k d)
  unfolding remove
  remove-Distinct k [] h = tt
  remove-Distinct k ((i, v) ∷ d) h = ground (arith, remove-Distinct k d h.1, lookup-remove k i d)

  pub snoc-Distinct :
      (k : Text) (v : V) (d : Dict V) → lookup k d ≡ none → Distinct d → Distinct (d ++ (k, v) ∷ [])
  unfolding lookup
  snoc-Distinct k v [] h g = (refl, tt)
  snoc-Distinct k v ((i, w) ∷ d) h g =
      ground (arith, snoc-Distinct k v d, lookup-append i d ((k, v) ∷ []))

  pub drop-Distinct : (n : ℕ) (d : Dict V) → Distinct d → Distinct (drop n d)
  drop-Distinct zero d h = h
  drop-Distinct (suc n) [] h = tt
  drop-Distinct (suc n) (e ∷ d) h = drop-Distinct n d h.1

  pub lookup-drop-none :
      (k : Text) (n : ℕ) (d : Dict V) → lookup k d ≡ none → lookup k (drop n d) ≡ none
  unfolding lookup
  lookup-drop-none k zero d h = h
  lookup-drop-none k (suc n) [] h = h
  lookup-drop-none k (suc n) ((i, v) ∷ d) h = lookup-drop-none k n d (ground arith)

  pub lookup-drop-some :
      (k : Text) (n : ℕ) (d : Dict V) (v : V)
      → Distinct d
      → lookup k (drop n d) ≡ some v
      → lookup k d ≡ some v
  unfolding lookup
  lookup-drop-some k zero d v g h = h
  lookup-drop-some k (suc n) [] v g h = h
  lookup-drop-some k (suc n) ((i, w) ∷ d) v g h = ground (arith, lookup-drop-some k n d v g.1 h)

  lookup-moved :
      (k j : Text) (v : V) (d : Dict V)
      → lookup k d ≡ some v
      → Dec (k ≡ j)
      → lookup j (remove k d ++ (k, v) ∷ []) ≡ lookup j d
  lookup-moved k j v d found (yes p) =
      cc (lookup-snoc_self k v (remove k d) (lookup-remove_self k d))
  lookup-moved k j v d found (no p) = lookup-snoc_ne k j v (remove k d) p ∙ lookup-remove_ne k j d p

  pub length-remove :
      (k : Text) (d : Dict V) (v : V)
      → Distinct d
      → lookup k d ≡ some v
      → length (remove k d) + 1 ≡ length d
  unfolding lookup remove
  length-remove k [] v g h = cc
  length-remove k ((i, w) ∷ d) v g h = ground (arith, length-remove k d v g.1, remove_absent k d)

  pub length-remove-le : (k : Text) (d : Dict V) → length (remove k d) ≤ length d
  unfolding remove
  length-remove-le k [] = omega arith
  length-remove-le k ((i, w) ∷ d) = ground (arith, length-remove-le k d)

  pub lookup-move_to_end : (k j : Text) (d : Dict V) → lookup j (move_to_end k d) ≡ lookup j d
  unfolding move_to_end
  lookup-move_to_end k j d = elim (Option-cases (lookup k d)) [
    | inl absent ↦ rw (absent, move_to_end) refl
    | inr (v, found) ↦ rw (found, move_to_end) (lookup-moved k j v d found (Text-discrete k j))
  ]
