-- ===== src/Dict.antt =====
-- Python's `OrderedDict` with `str` keys, as a list of entries, the oldest position first. A dict
-- holds a key at most once (`Distinct`), which every operation here keeps.
pub mod Laws
use tiny_cache.Base.{Text, Text-discrete, ite, Option, none, some, List, [], ◌∷◌, ◌++◌, ◌≡◌}

abbrev pub Dict {ℓ} : Type ℓ → Type ℓ
Dict V = List (Text × V)

module _ {ℓ} {V : Type ℓ} where
  -- `d.get(k)`
  unfoldable pub lookup : Text → Dict V → Option V
  lookup k [] = none
  lookup k ((j, v) ∷ d) = ite (Text-discrete j k) (some v) (lookup k d)

  -- what `d.pop(k, None)` leaves
  unfoldable pub remove : Text → Dict V → Dict V
  remove k [] = []
  remove k ((j, v) ∷ d) = ite (Text-discrete j k) (remove k d) ((j, v) ∷ remove k d)

  -- `d[k] = v`: in place if the key is there, else at the end
  unfoldable pub put : Text → V → Dict V → Dict V
  put k v [] = (k, v) ∷ []
  put k v ((j, w) ∷ d) = ite (Text-discrete j k) ((k, v) ∷ d) ((j, w) ∷ put k v d)

  -- `d.move_to_end(k)`; each call in the program is for a key that is there
  unfoldable pub move_to_end : Text → Dict V → Dict V
  move_to_end k d = elim (lookup k d) [ none ↦ d | some v ↦ remove k d ++ (k, v) ∷ [] ]

  -- No key stands twice.
  abbrev pub Distinct : Dict V → Type ℓ
  Distinct [] = Unit
  Distinct ((k, v) ∷ d) = (lookup k d ≡ none) × Distinct d
