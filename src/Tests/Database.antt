-- ===== src/Tests/Database.antt =====
-- A database that evicts the row which was accessed earliest, the first of them if there are more.
use tiny_cache.Base.{
  ℕ, ◌≤◌, ◌≡◌, refl, ap, subst, Text, Text-discrete, Bool-cases, Option, none, some, inl, inr,
  if◌then◌else◌, leb, leb-false→lt, [], ◌∷◌, arith,
}
use tiny_cache.Dict.{Dict, lookup, Distinct}
use tiny_cache.SqliteStore.State.{Row, Database, AccessedSince, IsOrdered}

abbrev earlier : Text × Row → Text × Row → Text × Row
earlier x rest = if leb x.1.last_accessed rest.1.last_accessed then x else rest

abbrev oldest_row : Text × Row → Dict Row → Text × Row
oldest_row x [] = x
oldest_row x (y ∷ rows) = earlier x (oldest_row y rows)

abbrev oldest_key : Dict Row → Option Text
oldest_key [] = none
oldest_key (x ∷ rows) = some (oldest_row x rows).0

abbrev pub db : Database
db = record { oldest = oldest_key }

AccessedSince-le : (m n : ℕ) (rows : Dict Row) → m ≤ n → AccessedSince n rows → AccessedSince m rows
AccessedSince-le m n [] h a = tt
AccessedSince-le m n ((k, row) ∷ rows) h a = (omega (arith, a.0), AccessedSince-le m n rows h a.1)

found_later :
    (k j : Text) (first row : Row) (rows : Dict Row)
    → lookup k rows ≡ none
    → lookup j rows ≡ some row
    → lookup j ((k, first) ∷ rows) ≡ some row
unfolding lookup
found_later k j first row rows absent found = elim (Text-discrete k j) [
  | yes p ↦ absurd (cc (absent, found, ap (λ i. lookup i rows) p))
  | no p ↦ ground (arith, p, found)
]

abbrev IsOldest : Dict Row → Text × Row → Type 0
IsOldest rows m = (lookup m.0 rows ≡ some m.1) × AccessedSince m.1.last_accessed rows

first_found : (k : Text) (row : Row) (rows : Dict Row) → lookup k ((k, row) ∷ rows) ≡ some row
unfolding lookup
first_found k row rows = ground arith

earlier-IsOldest :
    (k : Text) (row : Row) (m : Text × Row) (rows : Dict Row)
    → lookup k rows ≡ none
    → IsOldest rows m
    → IsOldest ((k, row) ∷ rows) (earlier (k, row) m)
earlier-IsOldest k row m rows absent (found, since) =
    elim (Bool-cases (leb row.last_accessed m.1.last_accessed)) [
      | inl p ↦
          let same : (k, row) ≡ earlier (k, row) m = rw (p, earlier) refl in
          subst (IsOldest ((k, row) ∷ rows)) same (
            first_found k row rows,
            (
              omega arith,
              AccessedSince-le row.last_accessed m.1.last_accessed rows (ground (arith, p)) since,
            ),
          )
      | inr p ↦
          let same : m ≡ earlier (k, row) m = rw (p, earlier) refl in
          let later = leb-false→lt row.last_accessed m.1.last_accessed p in
          subst (IsOldest ((k, row) ∷ rows)) same
            (found_later k m.0 row m.1 rows absent found, (omega arith, since))
    ]

oldest_row-IsOldest :
    (x : Text × Row) (rows : Dict Row)
    → Distinct (x ∷ rows)
    → IsOldest (x ∷ rows) (oldest_row x rows)
oldest_row-IsOldest (k, row) [] d = (first_found k row [], (omega arith, tt))
oldest_row-IsOldest (k, row) (y ∷ rows) d =
    earlier-IsOldest k row (oldest_row y rows) (y ∷ rows) d.0 (oldest_row-IsOldest y rows d.1)

pub db-IsOrdered : IsOrdered db
db-IsOrdered = record {
  empty = refl;
  first = λ x rows d.
      let (found, since) = oldest_row-IsOldest x rows d in
      ((oldest_row x rows).0, (oldest_row x rows).1, refl, found, since);
}
