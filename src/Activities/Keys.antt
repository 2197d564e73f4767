-- ===== src/Activities/Keys.antt =====
-- The primary keys of the tables, through every history of activities.
use mathlib.Core.Path.{subst}
use mathlib.Core.Option.{some-injective}
use redesigned_disco.Prelude.{
  String, Bool, ◌≡◌, refl, sym, ◌∙◌, ap, true, false, Option, none, some, List, [], ◌∷◌, ◌++◌, map,
  arith, ◌==◌, if◌then◌else◌, All, All-append, contains, Distinct, Distinct-last,
}
use redesigned_disco.Money.{Decimal, Postgres}
use redesigned_disco.Models.{Bill, BillEvent, AppendLineItemInput, CloseBillActivityInput}
use redesigned_disco.Store.{
  BillRow, ItemRow, Db, has_bill, has_item, has_event, update_bill, with_row,
}
use redesigned_disco.Activities.{World, new_bill_row, new_item_row}
use redesigned_disco.Activities.Create.{Opened}
use redesigned_disco.Activities.Append.{Appended}
use redesigned_disco.Activities.Close.{Closed, close_row}
use redesigned_disco.Activities.AuditKept.{total_keeps_id, close_keeps_id}
use redesigned_disco.Activities.Calls.{Call, perform_all, perform_all-keeps}

module _ {D : Type 0} {d : Decimal D} (pg : Postgres D d) where
  -- The ids of a table are UUIDs in canonical form, and no two are the same.
  pub record IsKeyedTable (ids : List String) : Type 0 where
    pub distinct : Distinct ids
    pub canonical : All (λ id. pg.uuid id ≡ some id) ids

  pub record IsKeyed (db : Db D) : Type 0 where
    pub bills : IsKeyedTable (map (λ r. r.id) db.bills)
    pub items : IsKeyedTable (map (λ r. r.id) db.items)
    pub events : IsKeyedTable (map (λ e. e.id) db.events)

  IsKeyedTable-last :
      (ids : List String) (key : String)
      → IsKeyedTable ids
      → pg.uuid key ≡ some key
      → contains ids key ≡ false
      → IsKeyedTable (ids ++ key ∷ [])
  IsKeyedTable-last ids key t read fresh = record {
    distinct = Distinct-last ids key t.distinct fresh;
    canonical = All-append _ ids (key ∷ []) t.canonical (read, tt);
  }

  map-last :
      {A : Type 0} (f : A → String) (xs : List A) (x : A)
      → map f (xs ++ x ∷ []) ≡ map f xs ++ f x ∷ []
  map-last f [] x = refl
  map-last f (y ∷ xs) x = ap (λ l. f y ∷ l) (map-last f xs x)

  has_bill-contains :
      (key : String) (rows : List (BillRow D))
      → has_bill key rows ≡ contains (map (λ r. r.id) rows) key
  has_bill-contains key [] = refl
  has_bill-contains key (r ∷ rs) = ground (arith, has_bill-contains key rs)

  has_item-contains :
      (key : String) (rows : List (ItemRow D))
      → has_item key rows ≡ contains (map (λ r. r.id) rows) key
  has_item-contains key [] = refl
  has_item-contains key (r ∷ rs) = ground (arith, has_item-contains key rs)

  has_event-contains :
      (key : String) (rows : List BillEvent)
      → has_event key rows ≡ contains (map (λ e. e.id) rows) key
  has_event-contains key [] = refl
  has_event-contains key (r ∷ rs) = ground (arith, has_event-contains key rs)

  event_added :
      (old : List BillEvent) (entry : BillEvent)
      → pg.uuid entry.id ≡ some entry.id
      → has_event entry.id old ≡ false
      → IsKeyedTable (map (λ e. e.id) old)
      → IsKeyedTable (map (λ e. e.id) (old ++ entry ∷ []))
  event_added old entry read fresh t =
      rw (map-last (λ e. e.id) old entry)
        (IsKeyedTable-last _ entry.id t read (sym (has_event-contains entry.id old) ∙ fresh))

  kept_ids :
      (set : BillRow D → Option (BillRow D)) (r : BillRow D) (rs rows : List (BillRow D)) (b : Bool)
      (new : Option (BillRow D)) (rest : Option (List (BillRow D)))
      → set r ≡ new
      → ((r' : BillRow D) → set r ≡ some r' → r'.id ≡ r.id)
      → ((xs : List (BillRow D)) → rest ≡ some xs → map (λ x. x.id) xs ≡ map (λ x. x.id) rs)
      → (if b then with_row new rest else with_row (some r) rest) ≡ some rows
      → map (λ x. x.id) rows ≡ map (λ x. x.id) (r ∷ rs)
  kept_ids set r rs rows true none none en keeps p h = cc
  kept_ids set r rs rows true (some r') none en keeps p h = cc
  kept_ids set r rs rows false new none en keeps p h = cc
  kept_ids set r rs rows true none (some xs) en keeps p h = cc
  kept_ids set r rs rows true (some r') (some xs) en keeps p h =
      ap (map (λ x. x.id)) (sym (some-injective _ _ h))
      ∙ ap (λ x. x ∷ map (λ y. y.id) xs) (keeps r' en)
      ∙ ap (λ l. r.id ∷ l) (p xs refl)
  kept_ids set r rs rows false new (some xs) en keeps p h =
      ap (map (λ x. x.id)) (sym (some-injective _ _ h)) ∙ ap (λ l. r.id ∷ l) (p xs refl)

  -- An update that keeps ids keeps all of them, in their order.
  same_ids :
      (set : BillRow D → Option (BillRow D)) (key : String)
      → ((r r' : BillRow D) → set r ≡ some r' → r'.id ≡ r.id)
      → (bills rows : List (BillRow D)) → update_bill set key bills ≡ some rows
      → map (λ r. r.id) rows ≡ map (λ r. r.id) bills
  same_ids set key keeps [] rows h = ap (map (λ r. r.id)) (sym (some-injective _ _ h))
  same_ids set key keeps (r ∷ rs) rows h =
      kept_ids set r rs rows (r.id == key) (set r) (update_bill set key rs) refl (keeps r)
        (λ xs e. same_ids set key keeps rs xs e) h

  -- A bill is opened under a new key, with a new audit entry.
  Opened-IsKeyed :
      (bill : Bill D) (old new : Db D) → Opened pg bill old new → IsKeyed old → IsKeyed new
  Opened-IsKeyed bill old new o k = subst IsKeyed (sym o.result) (record {
    bills =
        subst IsKeyedTable
          (sym (map-last (λ r. r.id) old.bills (record (new_bill_row d bill) { id = o.key })))
          (IsKeyedTable-last _ o.key k.bills (pg.uuid_idem _ _ o.key_read)
            (sym (has_bill-contains o.key old.bills) ∙ o.fresh));
    items = k.items;
    events = event_added old.events o.entry o.entry_read o.entry_fresh k.events;
  })

  Appended-IsKeyed :
      (i : AppendLineItemInput D) (old new : Db D)
      → Appended pg i old new
      → IsKeyed old
      → IsKeyed new
  Appended-IsKeyed i old new a k = subst IsKeyed (sym a.result) (record {
    bills =
        subst IsKeyedTable
          (sym
            (same_ids _ a.bill (λ r r' e. total_keeps_id pg r r' _ e) old.bills a.rows a.rows_read))
          k.bills;
    items =
        subst IsKeyedTable
          (sym (
            map-last (λ r. r.id) old.items
              (record (new_item_row i) { id = a.key; bill_id = a.bill; amount = a.amount })))
          (IsKeyedTable-last _ a.key k.items (pg.uuid_idem _ _ a.key_read)
            (sym (has_item-contains a.key old.items) ∙ a.fresh));
    events = event_added old.events a.entry a.entry_read a.entry_fresh k.events;
  })

  Closed-IsKeyed :
      (i : CloseBillActivityInput D) (old new : Db D)
      → Closed pg i old new
      → IsKeyed old
      → IsKeyed new
  Closed-IsKeyed i old new c k = subst IsKeyed (sym c.result) (record {
    bills =
        subst IsKeyedTable
          (sym (
            same_ids (close_row pg i) c.bill (λ r r' e. close_keeps_id pg r r' _ _ _ e) old.bills
              c.rows c.rows_read))
          k.bills;
    items = k.items;
    events = event_added old.events c.entry c.entry_read c.entry_fresh k.events;
  })

  -- After any history of activities, in any order and under any failures of their connections, the
  -- ids of the bills, of the line items and of the audit entries are UUIDs in canonical form, and
  -- each is the id of one row of its table, if that was so before.
  pub perform_all-IsKeyed :
      (calls : List (Call D)) (w : World D) → IsKeyed w.db → IsKeyed (perform_all pg calls w).db
  perform_all-IsKeyed = perform_all-keeps pg IsKeyed Opened-IsKeyed Appended-IsKeyed Closed-IsKeyed
