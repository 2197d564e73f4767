-- ===== src/Store/Statements.antt =====
-- The statements that the activities run. Each gives the changed database, or the error that the
-- driver returns: a text that is no UUID, a CHECK or a foreign key that fails, a numeric overflow
-- (`invalid`), and for `ON CONFLICT DO NOTHING RETURNING id` on a key that is taken, `no_rows`.
use redesigned_disco.Prelude.{
  String, ◌&&◌, Option, none, some, List, [], ◌∷◌, ◌++◌, not, if◌then◌else◌,
}
use redesigned_disco.Errs.{Result, ok, err}
use redesigned_disco.Money.{Decimal, Postgres}
use redesigned_disco.Models.{Time, CloseReason, BillEvent, closed_bill}
use redesigned_disco.Store.{
  BillRow, ItemRow, Db, DbError, no_rows, invalid, has_bill, has_item, has_event, has_currency,
  has_client, update_bill, with_total, reason_allowed,
}

module _ {D : Type 0} where
  -- The conflict on the key is seen before the foreign keys are checked.
  abbrev pub insert_bill_row : Option String → BillRow D → Db D → Result DbError (Db D)
  insert_bill_row none row db = err invalid
  insert_bill_row (some key) row db =
      if has_bill key db.bills
      then err no_rows
      else if has_currency row.currency db.currencies && has_client row.account_id db.clients
      then ok (record db { bills = db.bills ++ record row { id = key } ∷ [] })
      else err invalid

  abbrev pub insert_item_row :
      Decimal D
      → Option String
      → Option String
      → Option D
      → ItemRow D
      → Db D
      → Result DbError (Db D)
  insert_item_row d none bill amount row db = err invalid
  insert_item_row d (some key) none amount row db = err invalid
  insert_item_row d (some key) (some bill) none row db = err invalid
  insert_item_row d (some key) (some bill) (some amount) row db =
      if not (d.is_positive amount)
      then err invalid
      else if has_item key db.items
      then err no_rows
      else if has_bill bill db.bills && has_currency row.currency db.currencies
      then ok (record db {
        items = db.items ++ record row { id = key; bill_id = bill; amount = amount } ∷ [];
      })
      else err invalid

  -- A default id that is taken violates the primary key.
  abbrev pub insert_event_row :
      Option String → Option String → BillEvent → Db D → Result DbError (Db D)
  insert_event_row none bill e db = err invalid
  insert_event_row (some key) none e db = err invalid
  insert_event_row (some key) (some bill) e db =
      if not (has_event key db.events) && has_bill bill db.bills
      then ok (record db { events = db.events ++ record e { id = key; bill_id = bill } ∷ [] })
      else err invalid

  abbrev pub updated : Db D → Option (List (BillRow D)) → Result DbError (Db D)
  updated db none = err invalid
  updated db (some rows) = ok (record db { bills = rows })

  abbrev pub update_bill_at :
      (BillRow D → Option (BillRow D)) → Option String → Db D → Result DbError (Db D)
  update_bill_at set none db = err invalid
  update_bill_at set (some key) db = updated db (update_bill set key db.bills)

  abbrev pub closed_row : BillRow D → Time → Option CloseReason → Option D → Option (BillRow D)
  closed_row r at reason none = none
  closed_row r at reason (some t) =
      if reason_allowed reason
      then some (record r {
        status = closed_bill;
        total_amount = t;
        closed_at = some at;
        close_reason = reason;
      })
      else none

module _ {D : Type 0} {d : Decimal D} (pg : Postgres D d) where
  -- INSERT INTO bills ... ON CONFLICT (id) DO NOTHING RETURNING id
  unfoldable pub insert_bill : BillRow D → Db D → Result DbError (Db D)
  insert_bill row db = insert_bill_row (pg.uuid row.id) row db

  -- INSERT INTO line_items ... ON CONFLICT (id) DO NOTHING RETURNING id
  unfoldable pub insert_line_item : ItemRow D → Db D → Result DbError (Db D)
  insert_line_item row db =
      insert_item_row d (pg.uuid row.id) (pg.uuid row.bill_id) (pg.numeric row.amount) row db

  -- INSERT INTO bill_events ...
  unfoldable pub insert_event : BillEvent → Db D → Result DbError (Db D)
  insert_event e db = insert_event_row (pg.uuid e.id) (pg.uuid e.bill_id) e db

  -- UPDATE bills SET total_amount = total_amount + amount WHERE id = bill
  unfoldable pub add_to_total : D → String → Db D → Result DbError (Db D)
  add_to_total amount bill db =
      update_bill_at (λ r. with_total r (pg.numeric (d.add r.total_amount amount))) (pg.uuid bill)
        db

  -- UPDATE bills SET status = 'CLOSED', ... WHERE id = bill
  unfoldable pub close_bill_row :
      String → D → Time → Option CloseReason → Db D → Result DbError (Db D)
  close_bill_row bill total at reason db =
      update_bill_at (λ r. closed_row r at reason (pg.numeric total)) (pg.uuid bill) db
