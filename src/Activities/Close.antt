-- ===== src/Activities/Close.antt =====
-- `CloseBillActivity`: what one attempt does to the tables.
use redesigned_disco.Prelude.{
  ◌==◌, if◌then◌else◌, String, true, false, ◌≡◌, refl, Option, some, List, [], ◌∷◌, ◌++◌, arith,
}
use redesigned_disco.Errs.{Result, ok, err}
use redesigned_disco.Money.{Decimal, Postgres}
use redesigned_disco.Models.{CloseBillActivityInput, closed, closed_payload, BillEvent}
use redesigned_disco.Store.{BillRow, Db, DbError, update_bill, has_bill, has_event}
use redesigned_disco.Store.Statements.{close_bill_row, closed_row}
use redesigned_disco.Store.Inversion.{
  EventInserted, insert_event-EventInserted, BillsUpdated, update_bill_at-BillsUpdated,
}
use redesigned_disco.Activities.Tx.{statement-ok}
use redesigned_disco.Activities.{
  Conn, statement, append_event, counted, bills_closed_total, after_close, nullable_close_reason,
  close_bill_body,
}

abbrev pub close_row :
    {D : Type 0} {d : Decimal D}
    → Postgres D d
    → CloseBillActivityInput D
    → BillRow D
    → Option (BillRow D)
close_row pg i r =
    closed_row r i.closed_at (nullable_close_reason i.close_reason) (pg.numeric i.total_amount)

-- The bill's row was closed and one audit entry written, and nothing else.
pub record Closed {D : Type 0} {d : Decimal D} (pg : Postgres D d) (i : CloseBillActivityInput D)
    (old new : Db D) : Type 0 where
  pub bill : String
  pub rows : List (BillRow D)
  pub entry : BillEvent
  pub bill_read : pg.uuid i.bill_id ≡ some bill
  pub rows_read : update_bill (close_row pg i) bill old.bills ≡ some rows
  pub known : has_bill bill rows ≡ true
  pub entry_read : pg.uuid entry.id ≡ some entry.id
  pub entry_fresh : has_event entry.id old.events ≡ false
  pub entry_kind : entry.kind ≡ closed
  pub entry_bill : entry.bill_id ≡ bill
  pub entry_actor : entry.actor ≡ (if i.actor == "" then "system" else i.actor)
  pub entry_payload : entry.payload ≡ closed_payload (d.to_text i.total_amount) i.close_reason
  pub result : new ≡ record old { bills = rows; events = old.events ++ entry ∷ [] }

module _ {D : Type 0} {d : Decimal D} (pg : Postgres D d) where
  abbrev pub CloseOutcome : CloseBillActivityInput D → Db D → Result DbError (Db D) → Type 0
  CloseOutcome i old (err e) = Unit
  CloseOutcome i old (ok new) = Closed pg i old new

  Closed-of :
      (i : CloseBillActivityInput D) (a b e : Db D)
      → BillsUpdated pg (close_row pg i) i.bill_id a b
      → (entry : BillEvent) → entry.kind ≡ closed
      → entry.bill_id ≡ i.bill_id
      → entry.actor ≡ (if i.actor == "" then "system" else i.actor)
      → entry.payload ≡ closed_payload (d.to_text i.total_amount) i.close_reason
      → EventInserted pg entry b e
      → Closed pg i a e
  Closed-of i a b e x entry ek eb ea ep z = record {
    bill = x.bill;
    rows = x.rows;
    entry = record entry { id = z.key; bill_id = z.bill };
    bill_read = x.bill_read;
    rows_read = x.rows_read;
    entry_read = pg.uuid_idem entry.id z.key z.key_read;
    entry_fresh = ground arith;
    entry_kind = ek;
    entry_actor = ea;
    entry_payload = ep;
    known = ground arith;
    entry_bill = ground arith;
    result = ground arith;
  }

  logged_close_case :
      (c : Conn) (i : CloseBillActivityInput D) (a b : Db D) (r : Result DbError (Db D))
      → BillsUpdated pg (close_row pg i) i.bill_id a b
      → append_event pg c 1 i.bill_id closed i.actor
          (closed_payload (d.to_text i.total_amount) i.close_reason)
          b
        ≡ r
      → CloseOutcome i a (counted pg (bills_closed_total i.close_reason) r).0
  unfolding append_event
  logged_close_case c i a b (err e) upd h = tt
  logged_close_case c i a b (ok e) upd h =
      Closed-of i a b e upd _ refl refl refl refl
        (insert_event-EventInserted pg _ b e (statement-ok c 1 _ e h))

  close_case :
      (c : Conn) (i : CloseBillActivityInput D) (a : Db D) (r : Result DbError (Db D))
      → statement c 0 (
          close_bill_row pg i.bill_id i.total_amount i.closed_at
            (nullable_close_reason i.close_reason)
            a)
        ≡ r
      → CloseOutcome i a (after_close pg c i r).0
  unfolding close_bill_row
  close_case c i a (err e) h = tt
  close_case c i a (ok b) h =
      logged_close_case c i a b _
        (update_bill_at-BillsUpdated pg _ i.bill_id a b _ refl (statement-ok c 0 _ b h)) refl

  pub close_body_case :
      (c : Conn) (i : CloseBillActivityInput D) (a : Db D)
      → CloseOutcome i a (close_bill_body pg c i a).0
  unfolding close_bill_body
  close_body_case c i a = close_case c i a _ refl
