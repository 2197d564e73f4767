-- ===== src/Activities/Create.antt =====
-- `CreateBillActivity`: what one attempt does to the tables.
use redesigned_disco.Prelude.{
  String, ◌≡◌, refl, true, false, Option, none, some, [], ◌∷◌, ◌++◌, ◌⊎◌, inl, inr, arith,
}
use redesigned_disco.Errs.{Result, ok, err}
use redesigned_disco.Money.{Decimal, Postgres}
use redesigned_disco.Models.{Bill, opened, BillEvent, opened_payload}
use redesigned_disco.Store.{
  BillRow, Db, DbError, no_rows, invalid, connection, has_bill, has_event, has_client, has_currency,
}
use redesigned_disco.Store.Statements.{insert_bill, insert_bill_row}
use redesigned_disco.Store.Inversion.{EventInserted, insert_event-EventInserted}
use redesigned_disco.Activities.Tx.{statement-ok, statement-err}
use redesigned_disco.Activities.{
  Conn, statement, append_event, counted, bills_opened_total, after_insert_bill, new_bill_row,
  create_bill_body,
}

-- A bill row was inserted under a new key, and one audit entry written, and nothing else.
pub record Opened {D : Type 0} {d : Decimal D} (pg : Postgres D d) (bill : Bill D) (old new : Db D)
    : Type 0 where
  pub key : String
  pub entry : BillEvent
  pub key_read : pg.uuid bill.id ≡ some key
  pub fresh : has_bill key old.bills ≡ false
  pub client_known : has_client bill.account_id old.clients ≡ true
  pub currency_known : has_currency bill.currency old.currencies ≡ true
  pub entry_read : pg.uuid entry.id ≡ some entry.id
  pub entry_fresh : has_event entry.id old.events ≡ false
  pub entry_kind : entry.kind ≡ opened
  pub entry_bill : entry.bill_id ≡ key
  pub result : new ≡ record old {
    bills = old.bills ++ record (new_bill_row d bill) { id = key } ∷ [];
    events = old.events ++ entry ∷ [];
  }

record BillInserted {D : Type 0} {d : Decimal D} (pg : Postgres D d) (row : BillRow D)
    (old new : Db D) : Type 0 where
  key : String
  key_read : pg.uuid row.id ≡ some key
  fresh : has_bill key old.bills ≡ false
  client_known : has_client row.account_id old.clients ≡ true
  currency_known : has_currency row.currency old.currencies ≡ true
  result : new ≡ record old { bills = old.bills ++ record row { id = key } ∷ [] }

module _ {D : Type 0} {d : Decimal D} (pg : Postgres D d) where
  BillInserted-at :
      (k : Option String) (row : BillRow D) (old new : Db D)
      → pg.uuid row.id ≡ k
      → insert_bill_row k row old ≡ ok new
      → BillInserted pg row old new
  BillInserted-at none row old new ek h = cc
  BillInserted-at (some k) row old new ek h = record {
    key = k;
    key_read = ek;
    fresh = ground arith;
    client_known = ground arith;
    currency_known = ground arith;
    result = ground arith;
  }

  -- The key of the bill is taken.
  abbrev pub BillTaken : Bill D → Db D → Type 0
  BillTaken bill db = (key : String) × (pg.uuid bill.id ≡ some key) × (has_bill key db.bills ≡ true)

  bill_taken_at :
      (k : Option String) (row : BillRow D) (db : Db D)
      → insert_bill_row k row db ≡ err no_rows
      → (key : String) × (k ≡ some key) × (has_bill key db.bills ≡ true)
  bill_taken_at none row db h = cc
  bill_taken_at (some k) row db h = (k, refl, ground arith)

  abbrev pub CreateOutcome : Bill D → Db D → Result DbError (Db D) → Type 0
  CreateOutcome bill old (err e) = Unit
  CreateOutcome bill old (ok new) = (new ≡ old) × BillTaken bill old ⊎ Opened pg bill old new

  Opened-of :
      (bill : Bill D) (a b e : Db D)
      → BillInserted pg (new_bill_row d bill) a b
      → (entry : BillEvent) → entry.kind ≡ opened
      → entry.bill_id ≡ bill.id
      → EventInserted pg entry b e
      → Opened pg bill a e
  Opened-of bill a b e x entry ek eb z = record {
    key = x.key;
    entry = record entry { id = z.key; bill_id = z.bill };
    key_read = x.key_read;
    fresh = x.fresh;
    client_known = x.client_known;
    currency_known = x.currency_known;
    entry_read = pg.uuid_idem entry.id z.key z.key_read;
    entry_fresh = ground arith;
    entry_kind = ek;
    entry_bill = ground arith;
    result = ground arith;
  }

  opened_case :
      (c : Conn) (bill : Bill D) (a b : Db D) (r : Result DbError (Db D))
      → BillInserted pg (new_bill_row d bill) a b
      → append_event pg c 1 bill.id opened bill.account_id
          (opened_payload bill.currency bill.period_start bill.period_end)
          b
        ≡ r
      → CreateOutcome bill a (counted pg (bills_opened_total bill.currency) r).0
  unfolding append_event
  opened_case c bill a b (err e) ins h = tt
  opened_case c bill a b (ok e) ins h = inr (
      Opened-of bill a b e ins _ refl refl
        (insert_event-EventInserted pg _ b e (statement-ok c 1 _ e h)))

  insert_case :
      (c : Conn) (bill : Bill D) (a : Db D) (r : Result DbError (Db D))
      → statement c 0 (insert_bill pg (new_bill_row d bill) a) ≡ r
      → CreateOutcome bill a (after_insert_bill pg c bill a r).0
  unfolding insert_bill
  insert_case c bill a (err no_rows) h =
      inl (refl, bill_taken_at _ (new_bill_row d bill) a (statement-err c 0 _ h))
  insert_case c bill a (err invalid) h = tt
  insert_case c bill a (err connection) h = tt
  insert_case c bill a (ok b) h =
      opened_case c bill a b _
        (BillInserted-at _ (new_bill_row d bill) a b refl (statement-ok c 0 _ b h)) refl

  pub create_body_case :
      (c : Conn) (bill : Bill D) (a : Db D) → CreateOutcome bill a (create_bill_body pg c bill a).0
  unfolding create_bill_body
  create_body_case c bill a = insert_case c bill a _ refl
