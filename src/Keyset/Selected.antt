-- ===== src/Keyset/Selected.antt =====
-- The sorted selection of a table's rows: SELECT ... FROM table WHERE ... ORDER BY.
use redesigned_disco.Prelude.{
  String, Bool, ◌≡◌, ◌≢◌, sym, ◌∙◌, List, [], ◌∷◌, map, All, Bool-cases, inl, inr, select, Distinct,
  contains-apart,
}
use redesigned_disco.Keyset.{sort_by}
use redesigned_disco.Keyset.Sorting.{
  RowOrder, IsAscending, HasIds, sort_by-All, sort_by-IsAscending,
}

module _ {R A : Type 0} (f : R → A) (key : R → String) (p : R → Bool) where
  selected-All :
      (Q : R → Type 0) (P : A → Type 0)
      → ((r : R) → Q r → P (f r))
      → (rows : List R) → All Q rows
      → All P (map f (select p rows))
  selected-All Q P impl [] h = tt
  selected-All Q P impl (r ∷ rs) h = elim (Bool-cases (p r)) [
    | inl e ↦ rw e (impl r h.0, selected-All Q P impl rs h.1)
    | inr e ↦ rw e (selected-All Q P impl rs h.1)
  ]

  module _ (o : RowOrder A) (same : (r : R) → o.id_of (f r) ≡ key r) where
    selected-HasIds : (rows : List R) → Distinct (map key rows) → HasIds o (map f (select p rows))
    selected-HasIds [] d = tt
    selected-HasIds (r ∷ rs) d = elim (Bool-cases (p r)) [
      | inl e ↦ rw e (
        selected-All (λ x. key r ≢ key x) (λ b. o.id_of (f r) ≢ o.id_of b)
            (λ x apart h. apart (sym (same r) ∙ h ∙ same x)) rs (contains-apart key rs (key r) d.0),
        selected-HasIds rs d.1,
      )
      | inr e ↦ rw e (selected-HasIds rs d.1)
    ]

    -- The rows of a table with distinct ids are listed in one ascending order.
    pub sorted-IsAscending :
        (rows : List R)
        → Distinct (map key rows)
        → IsAscending o (sort_by o.before (map f (select p rows)))
    sorted-IsAscending rows d = sort_by-IsAscending o _ (selected-HasIds rows d)

  All-of_map :
      (P : String → Type 0) (rows : List R) → All P (map key rows) → All (λ r. P (key r)) rows
  All-of_map P [] h = tt
  All-of_map P (r ∷ rs) h = (h.0, All-of_map P rs h.1)

  -- What holds of all ids of a table holds of those that are listed.
  pub sorted-All :
      (o : RowOrder A) (P : String → Type 0)
      → ((r : R) → P (key r) → P (o.id_of (f r)))
      → (rows : List R) → All P (map key rows)
      → All (λ a. P (o.id_of a)) (sort_by o.before (map f (select p rows)))
  sorted-All o P impl rows h =
      sort_by-All o (λ a. P (o.id_of a)) _
        (selected-All (λ r. P (key r)) _ impl rows (All-of_map P rows h))
