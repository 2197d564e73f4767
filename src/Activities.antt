-- ===== src/Activities.antt =====
-- bill/activities.go: the three activities, each a transaction over the tables, and the counters
-- of bill/metrics.go that they increment. What the connection does is an argument.
pub mod Tx
pub mod Append
pub mod Create
pub mod Close
pub mod Calls
pub mod Audit
pub mod AuditKept
pub mod Ledger
pub mod LedgerKept
pub mod Retry
pub mod AtMostOnce
pub mod Closing
pub mod Keys
pub mod History
pub mod Counters
use redesigned_disco.Prelude.{
  ℕ, String, Bool, ◌==◌, Option, none, some, List, [], ◌∷◌, ◌++◌, if◌then◌else◌,
}
use redesigned_disco.Errs.{Result, ok, err}
use redesigned_disco.Money.{Decimal, Postgres}
use redesigned_disco.Models.{
  Time, Currency, CloseReason, unset, BillEventKind, opened, item_added, closed, system_actor,
  Payload, opened_payload, item_added_payload, closed_payload, BillEvent, LineItem, Bill,
  AppendLineItemInput, CloseBillActivityInput,
}
use redesigned_disco.Store.{BillRow, ItemRow, Db, DbError, no_rows, connection}
use redesigned_disco.Store.Statements.{
  insert_bill, insert_line_item, insert_event, add_to_total, close_bill_row,
}

pub data ItemOutcome : Type 0 where
  accepted duplicate rejected : ItemOutcome

-- One increment of a counter of bill/metrics.go, with its label.
pub data Metric : Type 0 where
  bills_opened_total : Currency → Metric
  bills_closed_total : CloseReason → Metric
  line_items_added_total : ItemOutcome → Metric
  line_item_validator_rejection_total : String → Metric

-- The tables, and the increments so far; a rollback does not undo an increment.
pub record World (D : Type 0) : Type 0 where
  pub db : Db D
  pub metrics : List Metric

-- A commit succeeds, fails, or succeeds without the client hearing of it.
pub data CommitOutcome : Type 0 where
  committed refused reply_lost : CommitOutcome

-- What the connection does in one transaction: whether it begins, whether its n-th statement gets
-- through, how it commits, and the id and instant that the event's column defaults would take.
pub record Conn : Type 0 where
  pub begin_ok : Bool
  pub exec_ok : ℕ → Bool
  pub commit : CommitOutcome
  pub event_id : String
  pub now : Time

abbrev pub statement {ℓ} : {A : Type ℓ} → Conn → ℕ → Result DbError A → Result DbError A
statement c n r = if c.exec_ok n then r else err connection

-- What a transaction's function returns: its tables or its error, and its increments.
abbrev pub Body : Type 0 → Type 0
Body D = Db D → Result DbError (Db D) × List Metric

module _ {D : Type 0} where
  abbrev pub end_tx :
      CommitOutcome
      → World D
      → Result DbError (Db D) × List Metric
      → Result DbError (Unit {0}) × World D
  end_tx o w (err e, m) = (err e, record w { metrics = w.metrics ++ m })
  end_tx committed w (ok db, m) = (ok tt, record { db = db; metrics = w.metrics ++ m })
  end_tx refused w (ok db, m) = (err connection, record w { metrics = w.metrics ++ m })
  end_tx reply_lost w (ok db, m) = (err connection, record { db = db; metrics = w.metrics ++ m })

  -- `inTx`: an error of the function rolls back.
  unfoldable pub in_tx : Conn → Body D → World D → Result DbError (Unit {0}) × World D
  in_tx c fn w = if c.begin_ok then end_tx c.commit w (fn w.db) else (err connection, w)

-- An enum's empty value becomes SQL NULL.
abbrev pub nullable_close_reason : CloseReason → Option CloseReason
nullable_close_reason unset = none
nullable_close_reason r = some r

abbrev pub new_bill_row : {D : Type 0} → Decimal D → Bill D → BillRow D
new_bill_row d bill = record {
  id = bill.id;
  account_id = bill.account_id;
  status = bill.status;
  currency = bill.currency;
  total_amount = d.nil;
  created_at = bill.created_at;
  closed_at = none;
  period_start = bill.period_start;
  period_end = bill.period_end;
  close_reason = none;
}

abbrev pub item_payload : {D : Type 0} → Decimal D → LineItem D → Payload
item_payload d i = item_added_payload i.id i.description (d.to_text i.amount) i.currency

abbrev pub new_item_row : {D : Type 0} → AppendLineItemInput D → ItemRow D
new_item_row i = record {
  id = i.item.id;
  bill_id = i.bill_id;
  description = i.item.description;
  amount = i.item.amount;
  currency = i.item.currency;
  created_at = i.item.created_at;
}

module _ {D : Type 0} {d : Decimal D} (pg : Postgres D d) where
  -- `appendEvent`, as the n-th statement of its transaction.
  unfoldable pub append_event :
      Conn → ℕ → String → BillEventKind → String → Payload → Db D → Result DbError (Db D)
  append_event c n bill_id kind actor payload db = statement c n (
      insert_event pg
        (record {
          id = c.event_id;
          bill_id = bill_id;
          kind = kind;
          actor = if actor == "" then system_actor else actor;
          payload = payload;
          created_at = c.now;
        })
        db)

  -- An increment that is reached only where the last statement succeeds.
  abbrev pub counted : Metric → Result DbError (Db D) → Result DbError (Db D) × List Metric
  counted m (ok db) = (ok db, m ∷ [])
  counted m (err e) = (err e, [])

  abbrev pub after_insert_bill :
      Conn → Bill D → Db D → Result DbError (Db D) → Result DbError (Db D) × List Metric
  after_insert_bill c bill db (err no_rows) = (ok db, [])
  after_insert_bill c bill db (err e) = (err e, [])
  after_insert_bill c bill db (ok db') = counted (bills_opened_total bill.currency) (
      append_event c 1 bill.id opened bill.account_id
        (opened_payload bill.currency bill.period_start bill.period_end) db')

  unfoldable pub create_bill_body : Conn → Bill D → Body D
  create_bill_body c bill db =
      after_insert_bill c bill db (statement c 0 (insert_bill pg (new_bill_row d bill) db))

  unfoldable pub create_bill_activity :
      Conn → Bill D → World D → Result DbError (Unit {0}) × World D
  unfolding in_tx create_bill_body
  create_bill_activity c bill = in_tx c (create_bill_body c bill)

  abbrev pub after_add_total :
      Conn → AppendLineItemInput D → Result DbError (Db D) → Result DbError (Db D) × List Metric
  after_add_total c i (err e) = (err e, [])
  after_add_total c i (ok db) =
      counted (line_items_added_total accepted)
        (append_event c 2 i.bill_id item_added i.actor (item_payload d i.item) db)

  abbrev pub after_insert_item :
      Conn
      → AppendLineItemInput D
      → Db D
      → Result DbError (Db D)
      → Result DbError (Db D) × List Metric
  after_insert_item c i db (err no_rows) = (ok db, line_items_added_total duplicate ∷ [])
  after_insert_item c i db (err e) = (err e, [])
  after_insert_item c i db (ok db') =
      after_add_total c i (statement c 1 (add_to_total pg i.item.amount i.bill_id db'))

  unfoldable pub append_line_item_body : Conn → AppendLineItemInput D → Body D
  append_line_item_body c i db =
      after_insert_item c i db (statement c 0 (insert_line_item pg (new_item_row i) db))

  unfoldable pub append_line_item_activity :
      Conn → AppendLineItemInput D → World D → Result DbError (Unit {0}) × World D
  unfolding in_tx append_line_item_body
  append_line_item_activity c i = in_tx c (append_line_item_body c i)

  abbrev pub after_close :
      Conn → CloseBillActivityInput D → Result DbError (Db D) → Result DbError (Db D) × List Metric
  after_close c i (err e) = (err e, [])
  after_close c i (ok db) = counted (bills_closed_total i.close_reason) (
      append_event c 1 i.bill_id closed i.actor
        (closed_payload (d.to_text i.total_amount) i.close_reason) db)

  unfoldable pub close_bill_body : Conn → CloseBillActivityInput D → Body D
  close_bill_body c i db = after_close c i (
      statement c 0 (
        close_bill_row pg i.bill_id i.total_amount i.closed_at
          (nullable_close_reason i.close_reason) db))

  unfoldable pub close_bill_activity :
      Conn → CloseBillActivityInput D → World D → Result DbError (Unit {0}) × World D
  unfolding in_tx close_bill_body
  close_bill_activity c i = in_tx c (close_bill_body c i)
