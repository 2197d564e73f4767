-- ===== src/Activities/Ledger.antt =====
-- The running totals: what the activities keep of the relation between `bills.total_amount` and the
-- rows of `line_items`.
use mathlib.Core.Path.{subst}
use mathlib.Core.Option.{some-injective}
use redesigned_disco.Prelude.{
  String, ◌≡◌, refl, sym, ◌∙◌, true, false, Option, none, some, List, [], ◌∷◌, ◌++◌, inl, inr,
  arith, ◌==◌, if◌then◌else◌, All, eq_iff,
}
use redesigned_disco.Money.{Decimal, Postgres, NonNegative}
use redesigned_disco.Models.{AppendLineItemInput, open_bill}
use redesigned_disco.Store.{BillRow, ItemRow, Db, has_bill, with_total}
use redesigned_disco.Store.Tables.{update_bill-All, has_bill-update_bill}
use redesigned_disco.Activities.{new_item_row}
use redesigned_disco.Activities.Append.{Appended}

-- The sum of the amounts that are stored for one bill.
abbrev pub item_sum : {D : Type 0} → Decimal D → String → List (ItemRow D) → D
item_sum d bill [] = d.nil
item_sum d bill (x ∷ xs) =
    let rest = item_sum d bill xs in if x.bill_id == bill then d.add x.amount rest else rest

module _ {D : Type 0} {d : Decimal D} (pg : Postgres D d) where
  -- An open bill's total is a value of its column, not negative, and the sum of its items.
  abbrev pub IsBalanced : List (ItemRow D) → BillRow D → Type 0
  IsBalanced items r =
      r.status ≡ open_bill
      → (pg.numeric r.total_amount ≡ some r.total_amount)
        × NonNegative d r.total_amount
        × (r.total_amount ≡ item_sum d r.id items)

  -- Every open bill is balanced, and no item belongs to a bill that is not there.
  pub record IsLedger (db : Db D) : Type 0 where
    pub balanced : All (IsBalanced db.items) db.bills
    pub referenced :
        (bill : String) → has_bill bill db.bills ≡ false → item_sum d bill db.items ≡ d.nil

  pub item_sum-last :
      (bill : String) (xs : List (ItemRow D)) (x : ItemRow D)
      → item_sum d bill (xs ++ x ∷ [])
        ≡ (if x.bill_id == bill then d.add (item_sum d bill xs) x.amount else item_sum d bill xs)
  item_sum-last bill [] x = ground (arith, d.nil-add x.amount, d.add_comm x.amount d.nil)
  item_sum-last bill (y ∷ xs) x =
      ground (arith, item_sum-last bill xs x, d.add_assoc y.amount (item_sum d bill xs) x.amount)

  module _ (i : AppendLineItemInput D) (old new : Db D) (app : Appended pg i old new) where
    abbrev stored : ItemRow D
    stored = record (new_item_row i) { id = app.key; bill_id = app.bill; amount = app.amount }

    sum_hit :
        (r : BillRow D)
        → (r.id == app.bill) ≡ true
        → item_sum d r.id (old.items ++ stored ∷ []) ≡ d.add (item_sum d r.id old.items) app.amount
    sum_hit r hit =
        ground
          (arith, item_sum-last r.id old.items stored, eq_iff r.id app.bill, eq_iff app.bill r.id)

    sum_miss :
        (key : String)
        → (key == app.bill) ≡ false
        → item_sum d key (old.items ++ stored ∷ []) ≡ item_sum d key old.items
    sum_miss key miss =
        ground (arith, item_sum-last key old.items stored, eq_iff key app.bill, eq_iff app.bill key)

    positive_sum : (t : D) → NonNegative d t → d.is_positive (d.add t app.amount) ≡ true
    positive_sum t (inl zero_total) = rw (zero_total, d.nil-add) app.positive
    positive_sum t (inr p) = d.add_positive t app.amount p app.positive

    raised_row :
        (r : BillRow D) (s : D)
        → pg.numeric (d.add r.total_amount i.item.amount) ≡ some s
        → (r.id == app.bill) ≡ true
        → IsBalanced old.items r
        → IsBalanced (old.items ++ stored ∷ []) (record r { total_amount = s })
    raised_row r s es hit p op =
        let (fits, sign, sum) = p op in
        let e : s ≡ d.add r.total_amount app.amount =
          pg.numeric-add r.total_amount i.item.amount app.amount s sign app.positive fits
            app.amount_read es in
        (
          pg.numeric_idem _ s es,
          inr (rw e (positive_sum r.total_amount sign)),
          ground (arith, sum_hit r hit),
        )

    raised :
        (r r' : BillRow D) (n : Option D)
        → pg.numeric (d.add r.total_amount i.item.amount) ≡ n
        → (r.id == app.bill) ≡ true
        → with_total r n ≡ some r'
        → IsBalanced old.items r
        → IsBalanced (old.items ++ stored ∷ []) r'
    raised r r' none en hit h p = cc
    raised r r' (some s) en hit h p =
        subst (IsBalanced (old.items ++ stored ∷ [])) (some-injective _ _ h)
          (raised_row r s en hit p)

    untouched :
        (r : BillRow D)
        → (r.id == app.bill) ≡ false
        → IsBalanced old.items r
        → IsBalanced (old.items ++ stored ∷ []) r
    untouched r miss p op =
        let (fits, sign, sum) = p op in (fits, sign, sum ∙ sym (sum_miss r.id miss))

    ids_kept : (r r' : BillRow D) (n : Option D) → with_total r n ≡ some r' → r'.id ≡ r.id
    ids_kept r r' none h = cc
    ids_kept r r' (some s) h = ground arith

    keys_kept : (k : String) → has_bill k app.rows ≡ has_bill k old.bills
    keys_kept k =
        has_bill-update_bill _ app.bill (λ r r' h. ids_kept r r' _ h) k old.bills app.rows
          app.rows_read

    unknown_miss : (k : String) → has_bill k old.bills ≡ false → (k == app.bill) ≡ false
    unknown_miss k h = ground (arith, eq_iff k app.bill, app.known)

    appended-IsLedger :
        IsLedger old
        → IsLedger (record old {
          bills = app.rows;
          items = old.items ++ stored ∷ [];
          events = old.events ++ app.entry ∷ [];
        })
    appended-IsLedger l = record {
      balanced =
          update_bill-All _ app.bill (IsBalanced old.items) (IsBalanced (old.items ++ stored ∷ []))
            (λ r r' hit h p. raised r r' _ refl hit h p) untouched old.bills app.rows app.rows_read
            l.balanced;
      referenced = λ k h.
          let unknown : has_bill k old.bills ≡ false = sym (keys_kept k) ∙ h in
          sum_miss k (unknown_miss k unknown) ∙ l.referenced k unknown;
    }

    pub Appended-IsLedger : IsLedger old → IsLedger new
    Appended-IsLedger l = subst IsLedger (sym app.result) (appended-IsLedger l)
