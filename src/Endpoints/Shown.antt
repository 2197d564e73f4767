-- ===== src/Endpoints/Shown.antt =====
-- The line items that GetBill shows against the account that the tables hold: as many, with the same
-- ids.
use redesigned_disco.Prelude.{
  suc, ◌+◌, String, Bool, ◌≡◌, refl, ◌∙◌, ap, List, [], ◌∷◌, map, arith, contains, length,
  length-map, select, ◌==◌, ◌||◌, if◌then◌else◌,
}
use redesigned_disco.Money.{Decimal}
use redesigned_disco.Models.{Time, LineItem}
use redesigned_disco.Store.{ItemRow}
use redesigned_disco.Views.{to_line_item_views, to_line_item_view}
use redesigned_disco.Keyset.{insert_sorted, sort_by}
use redesigned_disco.Workflow.Contract.{Entry, ids}
use redesigned_disco.Workflow.Run.Stacked.{stacked, entry_of}
use redesigned_disco.Endpoints.Loading.{item_of_row, items_of, item_before}

module _ {A : Type 0} (before : A → A → Bool) (id_of : A → String) (k : String) where
  contains-insert_sorted :
      (a : A) (xs : List A)
      → contains (map id_of (insert_sorted before a xs)) k
        ≡ (id_of a == k || contains (map id_of xs) k)
  contains-insert_sorted a [] = refl
  contains-insert_sorted a (b ∷ rest) = ground (arith, contains-insert_sorted a rest)

  contains-sort_by :
      (xs : List A) → contains (map id_of (sort_by before xs)) k ≡ contains (map id_of xs) k
  contains-sort_by [] = refl
  contains-sort_by (a ∷ rest) =
      ground (arith, contains-insert_sorted a (sort_by before rest), contains-sort_by rest)

module _ {A : Type 0} (before : A → A → Bool) where
  length-insert_sorted :
      (a : A) (xs : List A) → length (insert_sorted before a xs) ≡ suc (length xs)
  length-insert_sorted a [] = refl
  length-insert_sorted a (b ∷ rest) = ground (arith, length-insert_sorted a rest)

  length-sort_by : (xs : List A) → length (sort_by before xs) ≡ length xs
  length-sort_by [] = refl
  length-sort_by (a ∷ rest) =
      length-insert_sorted a (sort_by before rest) ∙ ap suc (length-sort_by rest)

module _ {D : Type 0} (key : String) where
  length-stacked :
      (acc : List (Entry D)) (rows : List (ItemRow D))
      → length (stacked key acc rows) ≡ length (select (λ r. r.bill_id == key) rows) + length acc
  length-stacked acc [] = omega arith
  length-stacked acc (x ∷ rows) =
      ground (arith, length-stacked (if x.bill_id == key then entry_of x ∷ acc else acc) rows)

  contains-stacked :
      (k : String) (acc : List (Entry D)) (rows : List (ItemRow D))
      → contains (ids (stacked key acc rows)) k ≡ (
          contains (map (λ i. i.id) (map item_of_row (select (λ r. r.bill_id == key) rows))) k
          || contains (ids acc) k)
  contains-stacked k acc [] = refl
  contains-stacked k acc (x ∷ rows) =
      ground (arith, contains-stacked k (if x.bill_id == key then entry_of x ∷ acc else acc) rows)

  module _ (d : Decimal D) (format : Time → String) where
    view_ids :
        (items : List (LineItem D))
        → map (λ v. v.id) (to_line_item_views d format items) ≡ map (λ i. i.id) items
    unfolding to_line_item_views to_line_item_view
    view_ids [] = refl
    view_ids (i ∷ items) = ap (λ l. i.id ∷ l) (view_ids items)

    pub shown_count :
        (rows : List (ItemRow D))
        → length (to_line_item_views d format (items_of key rows))
          ≡ length (stacked {D = D} key [] rows)
    unfolding to_line_item_views
    shown_count rows =
        let own = select (λ r. r.bill_id == key) rows in
        length-map (to_line_item_view d format) (items_of key rows)
        ∙ length-sort_by item_before (map item_of_row own)
        ∙ length-map item_of_row own
        ∙ omega (arith, length-stacked [] rows)

    pub shown_ids :
        (k : String) (rows : List (ItemRow D))
        → contains (map (λ v. v.id) (to_line_item_views d format (items_of key rows))) k
          ≡ contains (ids (stacked key [] rows)) k
    shown_ids k rows =
        let own : List (LineItem D) = map item_of_row (select (λ r. r.bill_id == key) rows) in
        ap (λ l. contains l k) (view_ids (items_of key rows))
        ∙ contains-sort_by item_before (λ i. i.id) k own
        ∙ ground (arith, contains-stacked k [] rows)
