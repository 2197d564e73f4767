-- ===== src/Store/Inversion.antt =====
-- What is known when a statement of Store/Statements.antt succeeds, and when it finds its key taken.
use redesigned_disco.Prelude.{
  String, ◌≡◌, refl, true, false, Option, none, some, List, [], ◌∷◌, ◌++◌, arith,
}
use redesigned_disco.Errs.{ok, err}
use redesigned_disco.Money.{Decimal, Postgres}
use redesigned_disco.Models.{BillEvent}
use redesigned_disco.Store.{
  BillRow, ItemRow, Db, no_rows, has_bill, has_item, has_event, update_bill,
}
use redesigned_disco.Store.Statements.{
  insert_item_row, insert_event_row, updated, update_bill_at, insert_line_item, insert_event,
}

-- A line item was inserted: under a new key, with a positive amount, into a bill that is there.
pub record ItemInserted {D : Type 0} {d : Decimal D} (pg : Postgres D d) (row : ItemRow D)
    (old new : Db D) : Type 0 where
  pub key : String
  pub bill : String
  pub amount : D
  pub key_read : pg.uuid row.id ≡ some key
  pub bill_read : pg.uuid row.bill_id ≡ some bill
  pub amount_read : pg.numeric row.amount ≡ some amount
  pub positive : d.is_positive amount ≡ true
  pub fresh : has_item key old.items ≡ false
  pub known : has_bill bill old.bills ≡ true
  pub result : new ≡ record old {
    items = old.items ++ record row { id = key; bill_id = bill; amount = amount } ∷ [];
  }

module _ {D : Type 0} {d : Decimal D} (pg : Postgres D d) (row : ItemRow D) (old new : Db D) where
  inserted_at :
      (k b : Option String) (a : Option D)
      → pg.uuid row.id ≡ k
      → pg.uuid row.bill_id ≡ b
      → pg.numeric row.amount ≡ a
      → insert_item_row d k b a row old ≡ ok new
      → ItemInserted pg row old new
  inserted_at none b a ek eb ea h = cc
  inserted_at (some k) none a ek eb ea h = cc
  inserted_at (some k) (some b) none ek eb ea h = cc
  inserted_at (some k) (some b) (some a) ek eb ea h = record {
    key = k;
    bill = b;
    amount = a;
    key_read = ek;
    bill_read = eb;
    amount_read = ea;
    positive = ground arith;
    fresh = ground arith;
    known = ground arith;
    result = ground arith;
  }

  pub insert_line_item-ItemInserted :
      insert_line_item pg row old ≡ ok new → ItemInserted pg row old new
  unfolding insert_line_item
  insert_line_item-ItemInserted h = inserted_at _ _ _ refl refl refl h

module _ {D : Type 0} {d : Decimal D} (pg : Postgres D d) where
  taken_at :
      (k b : Option String) (a : Option D) (row : ItemRow D) (db : Db D)
      → insert_item_row d k b a row db ≡ err no_rows
      → (key : String) × (k ≡ some key) × (has_item key db.items ≡ true)
  taken_at none b a row db h = cc
  taken_at (some k) none a row db h = cc
  taken_at (some k) (some b) none row db h = cc
  taken_at (some k) (some b) (some a) row db h = (k, refl, ground arith)

  -- `no_rows` says that the key is taken.
  pub insert_line_item-taken :
      (row : ItemRow D) (db : Db D)
      → insert_line_item pg row db ≡ err no_rows
      → (key : String) × (pg.uuid row.id ≡ some key) × (has_item key db.items ≡ true)
  unfolding insert_line_item
  insert_line_item-taken row db h = taken_at _ _ _ row db h

  -- An insert under a key that is taken never succeeds.
  refused_at :
      (key : String) (b : Option String) (a : Option D) (row : ItemRow D) (db : Db D)
      → has_item key db.items ≡ true
      → (new : Db D) → insert_item_row d (some key) b a row db ≡ ok new
      → ⊥
  refused_at key none a row db taken new h = cc
  refused_at key (some b) none row db taken new h = cc
  refused_at key (some b) (some a) row db taken new h = ground arith

  pub insert_line_item-refused :
      (key : String) (row : ItemRow D) (db new : Db D)
      → pg.uuid row.id ≡ some key
      → has_item key db.items ≡ true
      → insert_line_item pg row db ≡ ok new
      → ⊥
  unfolding insert_line_item
  insert_line_item-refused key row db new e taken h =
      refused_at key _ _ row db taken new (rw e at h)

-- An event was appended to the log of a bill that is there.
pub record EventInserted {D : Type 0} {d : Decimal D} (pg : Postgres D d) (e : BillEvent)
    (old new : Db D) : Type 0 where
  pub key : String
  pub bill : String
  pub key_read : pg.uuid e.id ≡ some key
  pub bill_read : pg.uuid e.bill_id ≡ some bill
  pub fresh : has_event key old.events ≡ false
  pub known : has_bill bill old.bills ≡ true
  pub result :
      new ≡ record old { events = old.events ++ record e { id = key; bill_id = bill } ∷ [] }

-- Rows of the bills table were updated.
pub record BillsUpdated {D : Type 0} {d : Decimal D} (pg : Postgres D d)
    (set : BillRow D → Option (BillRow D)) (bill_id : String) (old new : Db D) : Type 0 where
  pub bill : String
  pub rows : List (BillRow D)
  pub bill_read : pg.uuid bill_id ≡ some bill
  pub rows_read : update_bill set bill old.bills ≡ some rows
  pub result : new ≡ record old { bills = rows }

module _ {D : Type 0} {d : Decimal D} (pg : Postgres D d) where
  event_at :
      (k b : Option String) (e : BillEvent) (old new : Db D)
      → pg.uuid e.id ≡ k
      → pg.uuid e.bill_id ≡ b
      → insert_event_row k b e old ≡ ok new
      → EventInserted pg e old new
  event_at none b e old new ek eb h = cc
  event_at (some k) none e old new ek eb h = cc
  event_at (some k) (some b) e old new ek eb h = record {
    key = k;
    bill = b;
    key_read = ek;
    bill_read = eb;
    fresh = ground arith;
    known = ground arith;
    result = ground arith;
  }

  pub insert_event-EventInserted :
      (e : BillEvent) (old new : Db D) → insert_event pg e old ≡ ok new → EventInserted pg e old new
  unfolding insert_event
  insert_event-EventInserted e old new h = event_at _ _ e old new refl refl h

  updated_at :
      (set : BillRow D → Option (BillRow D)) (bill_id bill : String) (old new : Db D)
      (rows : Option (List (BillRow D)))
      → pg.uuid bill_id ≡ some bill
      → update_bill set bill old.bills ≡ rows
      → updated old rows ≡ ok new
      → BillsUpdated pg set bill_id old new
  updated_at set bill_id bill old new none eb er h = cc
  updated_at set bill_id bill old new (some rows) eb er h = record {
    bill = bill;
    rows = rows;
    bill_read = eb;
    rows_read = er;
    result = ground arith;
  }

  pub update_bill_at-BillsUpdated :
      (set : BillRow D → Option (BillRow D)) (bill_id : String) (old new : Db D) (b : Option String)
      → pg.uuid bill_id ≡ b
      → update_bill_at set b old ≡ ok new
      → BillsUpdated pg set bill_id old new
  update_bill_at-BillsUpdated set bill_id old new none eb h = cc
  update_bill_at-BillsUpdated set bill_id old new (some b) eb h =
      updated_at set bill_id b old new _ eb refl h
