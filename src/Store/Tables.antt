-- ===== src/Store/Tables.antt =====
-- How the look-ups and the update of Store.antt meet a row at the end of a table.
use mathlib.Core.Path.{subst}
use mathlib.Core.Option.{some-injective}
use redesigned_disco.Prelude.{
  String, ◌≡◌, refl, true, false, ◌||◌, ◌==◌, Option, none, some, List, [], ◌∷◌, ◌++◌, arith,
  eq_refl, All, Bool, if◌then◌else◌,
}
use redesigned_disco.Store.{BillRow, ItemRow, has_bill, has_item, update_bill, with_row}

module _ {D : Type 0} where
  pub has_item-append :
      (key : String) (xs ys : List (ItemRow D))
      → has_item key (xs ++ ys) ≡ (has_item key xs || has_item key ys)
  has_item-append key [] ys = refl
  has_item-append key (x ∷ xs) ys = ground (arith, has_item-append key xs ys)

  pub has_item-last :
      (xs : List (ItemRow D)) (row : ItemRow D) → has_item row.id (xs ++ row ∷ []) ≡ true
  has_item-last xs row = ground (arith, has_item-append row.id xs (row ∷ []), eq_refl row.id)

  pub has_bill-append :
      (key : String) (xs ys : List (BillRow D))
      → has_bill key (xs ++ ys) ≡ (has_bill key xs || has_bill key ys)
  has_bill-append key [] ys = refl
  has_bill-append key (x ∷ xs) ys = ground (arith, has_bill-append key xs ys)

module _ {D : Type 0} (set : BillRow D → Option (BillRow D)) (key : String)
    (P Q : BillRow D → Type 0)
    (hit : (r r' : BillRow D) → (r.id == key) ≡ true → set r ≡ some r' → P r → Q r')
    (miss : (r : BillRow D) → (r.id == key) ≡ false → P r → Q r) where
  consed :
      (r : BillRow D) (b : Bool) (new : Option (BillRow D)) (rest : Option (List (BillRow D)))
      (rows : List (BillRow D))
      → (r.id == key) ≡ b
      → set r ≡ new
      → P r
      → ((rs : List (BillRow D)) → rest ≡ some rs → All Q rs)
      → (if b then with_row new rest else with_row (some r) rest) ≡ some rows
      → All Q rows
  consed r true none none rows eb en p k h = cc
  consed r true (some r') none rows eb en p k h = cc
  consed r false new none rows eb en p k h = cc
  consed r true none (some rs) rows eb en p k h = cc
  consed r true (some r') (some rs) rows eb en p k h =
      subst (All Q) (some-injective _ _ h) (hit r r' eb en p, k rs refl)
  consed r false new (some rs) rows eb en p k h =
      subst (All Q) (some-injective _ _ h) (miss r eb p, k rs refl)

  -- A predicate of the rows through an update.
  pub update_bill-All :
      (bills rows : List (BillRow D))
      → update_bill set key bills ≡ some rows
      → All P bills
      → All Q rows
  update_bill-All [] rows h p = subst (All Q) (some-injective _ _ h) tt
  update_bill-All (r ∷ rs) rows h p =
      consed r (r.id == key) (set r) (update_bill set key rs) rows refl refl p.0
        (λ xs e. update_bill-All rs xs e p.1) h

module _ {D : Type 0} (set : BillRow D → Option (BillRow D)) (key : String) where
  keep_ids :
      (k : String) (r : BillRow D) (b : Bool) (new : Option (BillRow D))
      (rest : Option (List (BillRow D))) (rs rows : List (BillRow D))
      → set r ≡ new
      → ((r' : BillRow D) → set r ≡ some r' → r'.id ≡ r.id)
      → ((xs : List (BillRow D)) → rest ≡ some xs → has_bill k xs ≡ has_bill k rs)
      → (if b then with_row new rest else with_row (some r) rest) ≡ some rows
      → has_bill k rows ≡ has_bill k (r ∷ rs)
  keep_ids k r true none none rs rows en p f h = cc
  keep_ids k r true (some r') none rs rows en p f h = cc
  keep_ids k r false new none rs rows en p f h = cc
  keep_ids k r true none (some xs) rs rows en p f h = cc
  keep_ids k r true (some r') (some xs) rs rows en p f h = ground (arith, p r' en, f xs refl)
  keep_ids k r false new (some xs) rs rows en p f h = ground (arith, f xs refl)

  -- An update that keeps the ids keeps the keys of the table.
  pub has_bill-update_bill :
      ((r r' : BillRow D) → set r ≡ some r' → r'.id ≡ r.id)
      → (k : String) (bills rows : List (BillRow D)) → update_bill set key bills ≡ some rows
      → has_bill k rows ≡ has_bill k bills
  has_bill-update_bill same k [] rows h = ground arith
  has_bill-update_bill same k (r ∷ rs) rows h =
      keep_ids k r (r.id == key) (set r) (update_bill set key rs) rs rows refl (same r)
        (λ xs e. has_bill-update_bill same k rs xs e) h
