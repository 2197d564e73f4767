-- ===== src/Keyset/Sorting.antt =====
-- A sorted table: the order of its keys as an interface, and what sorting by it gives.
use mathlib.Core.List.{Perm}
use mathlib.Core.List.Perm
use redesigned_disco.Prelude.{
  String, Bool, ◌≡◌, ◌≢◌, sym, true, false, List, [], ◌∷◌, All, All-map, Bool-cases, inl, inr,
}
use redesigned_disco.Models.{Time}
use redesigned_disco.Keyset.{key_before, insert_sorted, sort_by}
use redesigned_disco.Keyset.Order.{key_before_trans, key_before_asymm, key_before_total}

-- A strict order of rows that is total on rows with different ids.
pub record RowOrder {ℓ} (A : Type ℓ) : Type ℓ where
  pub before : A → A → Bool
  pub id_of : A → String
  pub trans : (a b c : A) → before a b ≡ true → before b c ≡ true → before a c ≡ true
  pub asymm : (a b : A) → before a b ≡ true → before b a ≡ false
  pub total : (a b : A) → before a b ≡ false → id_of a ≢ id_of b → before b a ≡ true

-- ORDER BY created_at, id
abbrev pub ascending {ℓ} : {A : Type ℓ} → (A → Time) → (A → String) → RowOrder A
ascending at id = record {
  before = λ a b. key_before (at a) (id a) (at b) (id b);
  id_of = id;
  trans = λ a b c. key_before_trans (at a) (at b) (at c) (id a) (id b) (id c);
  asymm = λ a b. key_before_asymm (at a) (at b) (id a) (id b);
  total = λ a b. key_before_total (at a) (at b) (id a) (id b);
}

-- ORDER BY created_at DESC, id DESC
abbrev pub descending {ℓ} : {A : Type ℓ} → (A → Time) → (A → String) → RowOrder A
descending at id = record {
  before = λ a b. key_before (at b) (id b) (at a) (id a);
  id_of = id;
  trans = λ a b c h k. key_before_trans (at c) (at b) (at a) (id c) (id b) (id a) k h;
  asymm = λ a b. key_before_asymm (at b) (at a) (id b) (id a);
  total = λ a b h apart. key_before_total (at b) (at a) (id b) (id a) h (λ e. apart (sym e));
}

module _ {ℓ} {A : Type ℓ} (o : RowOrder A) where
  -- Each row comes before all the later ones.
  abbrev pub IsAscending : List A → Type 0
  IsAscending [] = Unit
  IsAscending (a ∷ rest) = All (λ b. o.before a b ≡ true) rest × IsAscending rest

  -- No two rows have the same id.
  abbrev pub HasIds : List A → Type 0
  HasIds [] = Unit
  HasIds (a ∷ rest) = All (λ b. o.id_of a ≢ o.id_of b) rest × HasIds rest

  pub before_irrefl : (a : A) → o.before a a ≡ false
  before_irrefl a = elim (Bool-cases (o.before a a)) [ inl e ↦ o.asymm a a e | inr e ↦ e ]

  insert_sorted-All :
      (P : A → Type 0) (a : A) (xs : List A) → P a → All P xs → All P (insert_sorted o.before a xs)
  insert_sorted-All P a [] p h = (p, tt)
  insert_sorted-All P a (b ∷ rest) p h = elim (Bool-cases (o.before b a)) [
    | inl e ↦ rw e (h.0, insert_sorted-All P a rest p h.1)
    | inr e ↦ rw e (p, h)
  ]

  -- A predicate of all rows holds of them when they are sorted.
  pub sort_by-All : (P : A → Type 0) (xs : List A) → All P xs → All P (sort_by o.before xs)
  sort_by-All P [] h = tt
  sort_by-All P (a ∷ rest) h = insert_sorted-All P a _ h.0 (sort_by-All P rest h.1)

  insert_sorted-IsAscending :
      (a : A) (xs : List A)
      → All (λ b. o.id_of a ≢ o.id_of b) xs
      → IsAscending xs
      → IsAscending (insert_sorted o.before a xs)
  insert_sorted-IsAscending a [] apart h = (tt, tt)
  insert_sorted-IsAscending a (b ∷ rest) apart h = elim (Bool-cases (o.before b a)) [
    | inl e ↦ rw e (
      insert_sorted-All (λ c. o.before b c ≡ true) a rest e h.0,
      insert_sorted-IsAscending a rest apart.1 h.1,
    )
    | inr e ↦
        let first = o.total b a e (λ q. apart.0 (sym q)) in
        rw e ((first, All-map _ _ rest (λ c k. o.trans a b c first k) h.0), h)
  ]

  -- Rows with different ids are sorted into one ascending list.
  pub sort_by-IsAscending : (xs : List A) → HasIds xs → IsAscending (sort_by o.before xs)
  sort_by-IsAscending [] h = tt
  sort_by-IsAscending (a ∷ rest) h =
      insert_sorted-IsAscending a _ (sort_by-All _ rest h.0) (sort_by-IsAscending rest h.1)

  insert_sorted-perm : (a : A) (xs : List A) → Perm (insert_sorted o.before a xs) (a ∷ xs)
  insert_sorted-perm a [] = Perm.rfl
  insert_sorted-perm a (b ∷ rest) = elim (Bool-cases (o.before b a)) [
    | inl e ↦ rw e (Perm.trans (Perm.cons b (insert_sorted-perm a rest)) (Perm.swap a b rest))
    | inr e ↦ rw e Perm.rfl
  ]

  -- Sorting keeps every row, as often.
  pub sort_by-perm : (xs : List A) → Perm (sort_by o.before xs) xs
  sort_by-perm [] = Perm.rfl
  sort_by-perm (a ∷ rest) = Perm.trans (insert_sorted-perm a _) (Perm.cons a (sort_by-perm rest))

-- The listed rows are the chosen ones, each once, in their order.
abbrev pub IsListing : {A : Type 0} → RowOrder A → List A → List A → Type 0
IsListing o listed chosen = IsAscending o listed × Perm listed chosen
