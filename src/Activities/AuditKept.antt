-- ===== src/Activities/AuditKept.antt =====
-- The audit log through the other two activities, and through every history.
use mathlib.Core.Path.{subst}
use redesigned_disco.Prelude.{
  suc, String, ◌≡◌, refl, sym, ◌∙◌, true, false, Option, none, some, List, [], ◌∷◌, ◌++◌, arith,
  ◌==◌, eq_iff, eq_refl,
}
use redesigned_disco.Money.{Decimal, Postgres}
use redesigned_disco.Models.{
  opened, item_added, closed, AppendLineItemInput, CloseBillActivityInput, CloseReason, Time,
}
use redesigned_disco.Store.{BillRow, ItemRow, Db, has_bill, with_total}
use redesigned_disco.Store.Statements.{closed_row}
use redesigned_disco.Store.Tables.{update_bill-All, has_bill-update_bill}
use redesigned_disco.Activities.{World, new_item_row}
use redesigned_disco.Activities.Append.{Appended}
use redesigned_disco.Activities.Close.{Closed, close_row}
use redesigned_disco.Activities.Audit.{
  IsRecorded, IsAudited, count_events, count_items, count_items-last, count_other, count_kind,
  count_this, flip_ne, Opened-IsAudited,
}
use redesigned_disco.Activities.Calls.{Call, perform_all, perform_all-keeps}

module _ {D : Type 0} {d : Decimal D} (pg : Postgres D d) where
  pub total_keeps_id : (r r' : BillRow D) (n : Option D) → with_total r n ≡ some r' → r'.id ≡ r.id
  total_keeps_id r r' none h = cc
  total_keeps_id r r' (some s) h = ground arith

  pub close_keeps_id :
      (r r' : BillRow D) (at : Time) (reason : Option CloseReason) (t : Option D)
      → closed_row r at reason t ≡ some r'
      → r'.id ≡ r.id
  close_keeps_id r r' at reason none h = cc
  close_keeps_id r r' at reason (some t) h = ground arith

  module _ (i : AppendLineItemInput D) (old new : Db D) (app : Appended pg i old new) where
    abbrev row : ItemRow D
    row = record (new_item_row i) { id = app.key; bill_id = app.bill; amount = app.amount }

    IsRecorded-hit :
        (r r' : BillRow D)
        → (r.id == app.bill) ≡ true
        → r'.id ≡ r.id
        → IsRecorded old.items old.events r
        → IsRecorded (old.items ++ row ∷ []) (old.events ++ app.entry ∷ []) r'
    IsRecorded-hit r r' hit e p =
        let same : app.bill ≡ r'.id = sym (e ∙ (eq_iff r.id app.bill).0 hit) in
        let here : (app.entry.bill_id == r'.id) ≡ true =
          rw (app.entry_bill, same) (eq_refl r'.id) in
        let before : count_events item_added r'.id old.events ≡ count_items r'.id old.items =
          rw e p.1 in
        let one_more : suc (count_events item_added r'.id old.events)
            ≡ count_items r'.id (old.items ++ row ∷ []) =
          ground (arith, count_items-last r'.id old.items row, eq_iff app.bill r'.id) in
        (
          count_kind opened item_added r'.id old.events app.entry app.entry_kind refl ∙ rw e p.0,
          count_this item_added r'.id old.events app.entry app.entry_kind refl here ∙ one_more,
        )

    miss_item :
        (k : String)
        → (k == app.bill) ≡ false
        → count_items k (old.items ++ row ∷ []) ≡ count_items k old.items
    miss_item k h =
        ground (arith, count_items-last k old.items row, eq_iff app.bill k, eq_iff k app.bill)

    IsRecorded-miss :
        (r : BillRow D)
        → (r.id == app.bill) ≡ false
        → IsRecorded old.items old.events r
        → IsRecorded (old.items ++ row ∷ []) (old.events ++ app.entry ∷ []) r
    IsRecorded-miss r miss p =
        let other = flip_ne r.id app.entry.bill_id app.bill app.entry_bill miss in
        (
          count_other opened r.id old.events app.entry other ∙ p.0,
          count_other item_added r.id old.events app.entry other ∙ p.1 ∙ sym (miss_item r.id miss),
        )

    unknown :
        (k : String)
        → has_bill k app.rows ≡ false
        → (has_bill k old.bills ≡ false) × ((k == app.bill) ≡ false)
    unknown k h = ground (
      arith,
      has_bill-update_bill _ app.bill (λ r r' e. total_keeps_id r r' _ e) k old.bills app.rows
          app.rows_read,
      app.known,
      eq_iff k app.bill,
    )

    Appended-IsAudited : IsAudited old → IsAudited new
    Appended-IsAudited l =
        let other = λ (k : String) (h : (k == app.bill) ≡ false).
          flip_ne k app.entry.bill_id app.bill app.entry_bill h in
        subst IsAudited (sym app.result) (record {
          recorded =
              update_bill-All _ app.bill (IsRecorded old.items old.events) _
                (λ r r' hit e p. IsRecorded-hit r r' hit (total_keeps_id r r' _ e) p)
                IsRecorded-miss old.bills app.rows app.rows_read l.recorded;
          no_entries = λ k h.
              let (u, v) = unknown k h in
              count_other opened k old.events app.entry (other k v) ∙ l.no_entries k u;
          no_additions = λ k h.
              let (u, v) = unknown k h in
              count_other item_added k old.events app.entry (other k v) ∙ l.no_additions k u;
          no_items = λ k h. let (u, v) = unknown k h in miss_item k v ∙ l.no_items k u;
        })

  module _ (i : CloseBillActivityInput D) (old new : Db D) (c : Closed pg i old new) where
    not_counted :
        (k : String)
        → (count_events opened k (old.events ++ c.entry ∷ []) ≡ count_events opened k old.events)
          × (count_events item_added k (old.events ++ c.entry ∷ [])
              ≡ count_events item_added k old.events)
    not_counted k = (
      count_kind opened closed k old.events c.entry c.entry_kind refl,
      count_kind item_added closed k old.events c.entry c.entry_kind refl,
    )

    same_keys : (k : String) → has_bill k c.rows ≡ has_bill k old.bills
    same_keys k =
        has_bill-update_bill (close_row pg i) c.bill (λ r r' e. close_keeps_id r r' _ _ _ e) k
          old.bills c.rows c.rows_read

    Closed-IsAudited : IsAudited old → IsAudited new
    Closed-IsAudited l = subst IsAudited (sym c.result) (record {
      recorded =
          update_bill-All (close_row pg i) c.bill (IsRecorded old.items old.events) _
            (λ r r' hit e p.
              rw (close_keeps_id r r' _ _ _ e)
                ((not_counted r.id).0 ∙ p.0, (not_counted r.id).1 ∙ p.1))
            (λ r miss p. ((not_counted r.id).0 ∙ p.0, (not_counted r.id).1 ∙ p.1)) old.bills c.rows
            c.rows_read l.recorded;
      no_entries = λ k h. (not_counted k).0 ∙ l.no_entries k (sym (same_keys k) ∙ h);
      no_additions = λ k h. (not_counted k).1 ∙ l.no_additions k (sym (same_keys k) ∙ h);
      no_items = λ k h. l.no_items k (sym (same_keys k) ∙ h);
    })

  -- After any history of activities, in any order and under any failures of their connections, the
  -- log holds one OPENED entry for each bill and one ITEM_ADDED entry for each of its line items, and
  -- there are no such entries and no items for a bill that is not there, if that was so before.
  pub perform_all-IsAudited :
      (calls : List (Call D)) (w : World D) → IsAudited w.db → IsAudited (perform_all pg calls w).db
  perform_all-IsAudited calls w h =
      perform_all-keeps pg IsAudited (Opened-IsAudited pg) Appended-IsAudited Closed-IsAudited calls
        w h
