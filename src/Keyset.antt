-- ===== src/Keyset.antt =====
-- The order that the list endpoints of bill/endpoints.go ask Postgres for, `ORDER BY created_at, id`
-- and its reverse, and the row comparison of their keyset predicates. The ids that are compared are
-- UUIDs in canonical form, whose order as texts is their order as UUIDs.
pub mod Texts
pub mod Order
pub mod Sorting
pub mod Walk
pub mod Selected
use Prim.Native.String.{compare}
use Prim.Native.Nat.{compare as compare_ℕ, Ordering}
use redesigned_disco.Prelude.{
  ℕ, String, Bool, true, false, ◌==◌, Option, none, some, List, [], ◌∷◌, if◌then◌else◌, take,
  select,
}
use redesigned_disco.Errs.{Result, ok, err}
use redesigned_disco.Models.{Time}
use redesigned_disco.Store.{DbError, invalid}

abbrev pub text_before : String → String → Bool
text_before s t = elim (compare s t) [ Ordering.lt ↦ true | _ ↦ false ]

-- (t, i) < (u, j)
abbrev pub key_before : Time → String → Time → String → Bool
key_before t i u j = elim (compare_ℕ t u) [
  | Ordering.lt ↦ true
  | Ordering.gt ↦ false
  | Ordering.eq ↦ text_before i j
]

module _ {ℓ} {A : Type ℓ} (before : A → A → Bool) where
  abbrev pub insert_sorted : A → List A → List A
  insert_sorted a [] = a ∷ []
  insert_sorted a (b ∷ rest) =
      let later = insert_sorted a rest in if before b a then b ∷ later else a ∷ b ∷ rest

  -- ORDER BY
  abbrev pub sort_by : List A → List A
  sort_by [] = []
  sort_by (a ∷ rest) = insert_sorted a (sort_by rest)

module _ {A : Type 0} (beyond : Time → String → A → Bool) where
  abbrev pub rows_beyond : ℕ → Time → Option String → List A → Result DbError (List A)
  rows_beyond n at none rows = err invalid
  rows_beyond n at (some id) rows = ok (take n (select (beyond at id) rows))

  -- The rows of a query in their order, LIMIT n; those beyond the cursor, where it has an id.
  abbrev pub query_page :
      (String → Option String)
      → ℕ
      → Time × String
      → Result DbError (List A)
      → Result DbError (List A)
  query_page uuid n cursor (err e) = err e
  query_page uuid n (at, id) (ok rows) =
      if id == "" then ok (take n rows) else rows_beyond n at (uuid id) rows
