-- ===== src/Activities/Append.antt =====
-- `AppendLineItemActivity`: what one attempt does to the tables, and any number of attempts.
use redesigned_disco.Prelude.{
  String, ◌≡◌, refl, true, false, Option, some, List, [], ◌∷◌, ◌++◌, ◌⊎◌, inl, inr, arith, ◌==◌,
  if◌then◌else◌,
}
use redesigned_disco.Errs.{Result, ok, err}
use redesigned_disco.Money.{Decimal, Postgres}
use redesigned_disco.Models.{AppendLineItemInput, item_added, system_actor, BillEvent}
use redesigned_disco.Store.{
  BillRow, Db, DbError, no_rows, invalid, connection, has_bill, has_event, has_item, update_bill,
  with_total,
}
use redesigned_disco.Store.Statements.{insert_line_item, add_to_total}
use redesigned_disco.Store.Inversion.{
  ItemInserted, insert_line_item-ItemInserted, insert_line_item-taken, EventInserted,
  insert_event-EventInserted, BillsUpdated, update_bill_at-BillsUpdated,
}
use redesigned_disco.Activities.Tx.{statement-ok, statement-err}
use redesigned_disco.Activities.{
  Conn, statement, append_event, after_insert_item, after_add_total, new_item_row, item_payload,
  append_line_item_body, counted, line_items_added_total, accepted,
}

abbrev pub add_amount :
    {D : Type 0} {d : Decimal D} → Postgres D d → D → BillRow D → Option (BillRow D)
add_amount {d = d} pg a r = with_total r (pg.numeric (d.add r.total_amount a))

-- The audit entry of one line item.
abbrev pub item_event : {D : Type 0} → Decimal D → Conn → AppendLineItemInput D → String → BillEvent
item_event d c i bill = record {
  id = c.event_id;
  bill_id = bill;
  kind = item_added;
  actor = if i.actor == "" then system_actor else i.actor;
  payload = item_payload d i.item;
  created_at = c.now;
}

-- One line item was stored, its bill's total raised and its audit entry written, and nothing else.
pub record Appended {D : Type 0} {d : Decimal D} (pg : Postgres D d) (i : AppendLineItemInput D)
    (old new : Db D) : Type 0 where
  pub key : String
  pub bill : String
  pub amount : D
  pub rows : List (BillRow D)
  pub entry : BillEvent
  pub key_read : pg.uuid i.item.id ≡ some key
  pub bill_read : pg.uuid i.bill_id ≡ some bill
  pub amount_read : pg.numeric i.item.amount ≡ some amount
  pub positive : d.is_positive amount ≡ true
  pub fresh : has_item key old.items ≡ false
  pub known : has_bill bill old.bills ≡ true
  pub rows_read : update_bill (add_amount pg i.item.amount) bill old.bills ≡ some rows
  pub entry_read : pg.uuid entry.id ≡ some entry.id
  pub entry_fresh : has_event entry.id old.events ≡ false
  pub entry_kind : entry.kind ≡ item_added
  pub entry_bill : entry.bill_id ≡ bill
  pub result : new ≡ record old {
    bills = rows;
    items = old.items ++ record (new_item_row i) { id = key; bill_id = bill; amount = amount } ∷ [];
    events = old.events ++ entry ∷ [];
  }

module _ {D : Type 0} {d : Decimal D} (pg : Postgres D d) where
  -- The three statements, each successful, append the item.
  Appended-of :
      (i : AppendLineItemInput D) (a b e f : Db D)
      → ItemInserted pg (new_item_row i) a b
      → BillsUpdated pg (add_amount pg i.item.amount) i.bill_id b e
      → (entry : BillEvent) → entry.kind ≡ item_added
      → entry.bill_id ≡ i.bill_id
      → EventInserted pg entry e f
      → Appended pg i a f
  Appended-of i a b e f x y entry ek eb z = record {
    key = x.key;
    bill = x.bill;
    amount = x.amount;
    rows = y.rows;
    entry = record entry { id = z.key; bill_id = z.bill };
    key_read = x.key_read;
    bill_read = x.bill_read;
    amount_read = x.amount_read;
    positive = x.positive;
    fresh = x.fresh;
    known = x.known;
    rows_read = ground arith;
    entry_read = pg.uuid_idem entry.id z.key z.key_read;
    entry_fresh = ground arith;
    entry_kind = ek;
    entry_bill = ground arith;
    result = ground arith;
  }

  -- The key of the item is taken.
  abbrev pub Taken : AppendLineItemInput D → Db D → Type 0
  Taken i db = (key : String) × (pg.uuid i.item.id ≡ some key) × (has_item key db.items ≡ true)

  -- What the transaction's function has done when it returns.
  abbrev pub Outcome : AppendLineItemInput D → Db D → Result DbError (Db D) → Type 0
  Outcome i old (err e) = Unit
  Outcome i old (ok new) = (new ≡ old) × Taken i old ⊎ Appended pg i old new

  logged_case :
      (c : Conn) (i : AppendLineItemInput D) (a b e : Db D) (r : Result DbError (Db D))
      → ItemInserted pg (new_item_row i) a b
      → BillsUpdated pg (add_amount pg i.item.amount) i.bill_id b e
      → append_event pg c 2 i.bill_id item_added i.actor (item_payload d i.item) e ≡ r
      → Outcome i a (counted pg (line_items_added_total accepted) r).0
  unfolding append_event
  logged_case c i a b e (err x) ins upd h = tt
  logged_case c i a b e (ok f) ins upd h = inr (
      Appended-of i a b e f ins upd _ refl refl
        (insert_event-EventInserted pg _ e f (statement-ok c 2 _ f h)))

  added_case :
      (c : Conn) (i : AppendLineItemInput D) (a b : Db D) (r : Result DbError (Db D))
      → ItemInserted pg (new_item_row i) a b
      → statement c 1 (add_to_total pg i.item.amount i.bill_id b) ≡ r
      → Outcome i a (after_add_total pg c i r).0
  unfolding add_to_total
  added_case c i a b (err x) ins h = tt
  added_case c i a b (ok e) ins h =
      logged_case c i a b e _ ins
        (update_bill_at-BillsUpdated pg _ i.bill_id b e _ refl (statement-ok c 1 _ e h)) refl

  inserted_case :
      (c : Conn) (i : AppendLineItemInput D) (a : Db D) (r : Result DbError (Db D))
      → statement c 0 (insert_line_item pg (new_item_row i) a) ≡ r
      → Outcome i a (after_insert_item pg c i a r).0
  inserted_case c i a (err no_rows) h =
      inl (refl, insert_line_item-taken pg (new_item_row i) a (statement-err c 0 _ h))
  inserted_case c i a (err invalid) h = tt
  inserted_case c i a (err connection) h = tt
  inserted_case c i a (ok b) h =
      added_case c i a b _ (insert_line_item-ItemInserted pg _ a b (statement-ok c 0 _ b h)) refl

  pub body_case :
      (c : Conn) (i : AppendLineItemInput D) (a : Db D)
      → Outcome i a (append_line_item_body pg c i a).0
  unfolding append_line_item_body
  body_case c i a = inserted_case c i a _ refl
