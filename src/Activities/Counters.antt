-- ===== src/Activities/Counters.antt =====
-- The counters of bill/metrics.go against the log: a counter is incremented in the function of the
-- transaction, so a commit that is refused is counted and a stored entry never goes uncounted.

use redesigned_disco.Prelude.{
  ℕ, suc, ◌+◌, ◌≤◌, String, Bool, true, false, ◌≡◌, refl, ap, ◌∙◌, Option, none, some, List, [],
  ◌∷◌, ◌++◌, arith, if◌then◌else◌,
}
use redesigned_disco.Errs.{Result, ok, err}
use redesigned_disco.Money.{Decimal, Postgres}
use redesigned_disco.Models.{
  Bill, BillEvent, BillEventKind, opened, item_added, closed, Payload, CloseReason,
  AppendLineItemInput, CloseBillActivityInput,
}
use redesigned_disco.Store.{BillRow, Db, DbError, no_rows, invalid, connection}
use redesigned_disco.Store.Statements.{
  insert_bill, insert_bill_row, insert_line_item, add_to_total, close_bill_row,
}
use redesigned_disco.Store.Inversion.{
  insert_line_item-ItemInserted, EventInserted, insert_event-EventInserted,
  update_bill_at-BillsUpdated,
}
use redesigned_disco.Activities.{
  Conn, World, Metric, bills_opened_total, bills_closed_total, line_items_added_total, accepted,
  duplicate, CommitOutcome, committed, refused, reply_lost, statement, end_tx, append_event,
  counted, after_insert_bill, create_bill_body, create_bill_activity, after_insert_item,
  after_add_total, append_line_item_body, append_line_item_activity, after_close, close_bill_body,
  close_bill_activity, new_bill_row, new_item_row, nullable_close_reason,
}
use redesigned_disco.Activities.Audit.{is_kind}
use redesigned_disco.Activities.Tx.{in_tx-cases, statement-ok}
use redesigned_disco.Activities.Calls.{Call, create, append, close, perform, perform_all}

-- The counter that goes with a kind of entry.
abbrev pub counts_kind : BillEventKind → Metric → Bool
counts_kind opened (bills_opened_total c) = true
counts_kind item_added (line_items_added_total accepted) = true
counts_kind closed (bills_closed_total r) = true
counts_kind _ _ = false

abbrev pub entries : BillEventKind → List BillEvent → ℕ
entries kind [] = 0
entries kind (e ∷ es) = let rest = entries kind es in if is_kind e.kind kind then suc rest else rest

abbrev pub increments : BillEventKind → List Metric → ℕ
increments kind [] = 0
increments kind (m ∷ ms) =
    let rest = increments kind ms in if counts_kind kind m then suc rest else rest

entries-last :
    (kind : BillEventKind) (es : List BillEvent) (e : BillEvent)
    → entries kind (es ++ e ∷ [])
      ≡ (if is_kind e.kind kind then suc (entries kind es) else entries kind es)
entries-last kind [] e = refl
entries-last kind (x ∷ es) e = ground (arith, entries-last kind es e)

increments-append :
    (kind : BillEventKind) (xs ys : List Metric)
    → increments kind (xs ++ ys) ≡ increments kind xs + increments kind ys
increments-append kind [] ys = omega arith
increments-append kind (x ∷ xs) ys = ground (arith, increments-append kind xs ys)

-- What the tables log is counted.
abbrev pub Counted : {D : Type 0} → World D → Type 0
Counted w = (kind : BillEventKind) → entries kind w.db.events ≤ increments kind w.metrics

-- A metric goes with the kind of entry, and with no other.
abbrev GoesWith : BillEventKind → Metric → Type 0
GoesWith logged m = (kind : BillEventKind) → counts_kind kind m ≡ is_kind logged kind

opened_goes : (c : String) → GoesWith opened (bills_opened_total c)
opened_goes c opened = refl
opened_goes c item_added = refl
opened_goes c closed = refl

item_goes : GoesWith item_added (line_items_added_total accepted)
item_goes opened = refl
item_goes item_added = refl
item_goes closed = refl

closed_goes : (r : CloseReason) → GoesWith closed (bills_closed_total r)
closed_goes r opened = refl
closed_goes r item_added = refl
closed_goes r closed = refl

module _ {D : Type 0} {d : Decimal D} (pg : Postgres D d) where
  inserted_entries :
      (e : BillEvent) (old new : Db D)
      → EventInserted pg e old new
      → (kind : BillEventKind)
      → entries kind new.events
        ≡ (if is_kind e.kind kind then suc (entries kind old.events) else entries kind old.events)
  inserted_entries e old new z kind =
      ap (λ (x : Db D). entries kind x.events) z.result
      ∙ entries-last kind old.events (record e { id = z.key; bill_id = z.bill })

  -- A function's new entries are among its increments.
  abbrev Grows : Db D → Result DbError (Db D) × List Metric → Type 0
  Grows old (err e, m) = Unit
  Grows old (ok new, m) =
      (kind : BillEventKind) → entries kind new.events ≤ entries kind old.events + increments kind m

  counted-Grows :
      (c : Conn) (n : ℕ) (bill : String) (logged : BillEventKind) (actor : String)
      (payload : Payload) (m : Metric) (old mid : Db D) (r : Result DbError (Db D))
      → GoesWith logged m
      → mid.events ≡ old.events
      → append_event pg c n bill logged actor payload mid ≡ r
      → Grows old (counted pg m r)
  unfolding append_event
  counted-Grows c n bill logged actor payload m old mid (err e) g same h = tt
  counted-Grows c n bill logged actor payload m old mid (ok new) g same h = λ kind.
      let z = insert_event-EventInserted pg _ mid new (statement-ok c n _ new h) in
      let before = ap (entries kind) same in
      ground (arith, inserted_entries _ mid new z kind, g kind, before)

  bill_row-events :
      (k : Option String) (row : BillRow D) (old new : Db D)
      → insert_bill_row k row old ≡ ok new
      → new.events ≡ old.events
  bill_row-events none row old new h = cc
  bill_row-events (some key) row old new h = ground arith

  no_growth : (db : Db D) (m : List Metric) → Grows db (ok db, m)
  no_growth db m kind = omega arith

  create-Grows :
      (c : Conn) (bill : Bill D) (a : Db D) (r : Result DbError (Db D))
      → statement c 0 (insert_bill pg (new_bill_row d bill) a) ≡ r
      → Grows a (after_insert_bill pg c bill a r)
  unfolding insert_bill
  create-Grows c bill a (err no_rows) h = no_growth a []
  create-Grows c bill a (err invalid) h = tt
  create-Grows c bill a (err connection) h = tt
  create-Grows c bill a (ok b) h =
      counted-Grows c 1 bill.id opened bill.account_id _ _ a b _ (opened_goes bill.currency)
        (bill_row-events _ (new_bill_row d bill) a b (statement-ok c 0 _ b h)) refl

  added-Grows :
      (c : Conn) (i : AppendLineItemInput D) (a b : Db D) (r : Result DbError (Db D))
      → b.events ≡ a.events
      → statement c 1 (add_to_total pg i.item.amount i.bill_id b) ≡ r
      → Grows a (after_add_total pg c i r)
  unfolding add_to_total
  added-Grows c i a b (err x) same h = tt
  added-Grows c i a b (ok e) same h =
      let u = update_bill_at-BillsUpdated pg _ i.bill_id b e _ refl (statement-ok c 1 _ e h) in
      counted-Grows c 2 i.bill_id item_added i.actor _ _ a e _ item_goes
        (ap (λ (x : Db D). x.events) u.result ∙ same) refl

  append-Grows :
      (c : Conn) (i : AppendLineItemInput D) (a : Db D) (r : Result DbError (Db D))
      → statement c 0 (insert_line_item pg (new_item_row i) a) ≡ r
      → Grows a (after_insert_item pg c i a r)
  append-Grows c i a (err no_rows) h = no_growth a (line_items_added_total duplicate ∷ [])
  append-Grows c i a (err invalid) h = tt
  append-Grows c i a (err connection) h = tt
  append-Grows c i a (ok b) h =
      let x = insert_line_item-ItemInserted pg _ a b (statement-ok c 0 _ b h) in
      added-Grows c i a b _ (ap (λ (y : Db D). y.events) x.result) refl

  close-Grows :
      (c : Conn) (i : CloseBillActivityInput D) (a : Db D) (r : Result DbError (Db D))
      → statement c 0 (
          close_bill_row pg i.bill_id i.total_amount i.closed_at
            (nullable_close_reason i.close_reason)
            a)
        ≡ r
      → Grows a (after_close pg c i r)
  unfolding close_bill_row
  close-Grows c i a (err e) h = tt
  close-Grows c i a (ok b) h =
      let u = update_bill_at-BillsUpdated pg _ i.bill_id a b _ refl (statement-ok c 0 _ b h) in
      counted-Grows c 1 i.bill_id closed i.actor _ _ a b _ (closed_goes i.close_reason)
        (ap (λ (x : Db D). x.events) u.result) refl

  abbrev CountedAfter : Result DbError (Unit {0}) × World D → Type 0
  CountedAfter (r, w) = Counted w

  end_tx-Counted :
      (o : CommitOutcome) (w : World D) (r : Result DbError (Db D)) (m : List Metric)
      → Counted w
      → Grows w.db (r, m)
      → CountedAfter (end_tx o w (r, m))
  end_tx-Counted o w (err e) m h g kind = ground (arith, h kind, increments-append kind w.metrics m)
  end_tx-Counted committed w (ok new) m h g kind =
      ground (arith, h kind, g kind, increments-append kind w.metrics m)
  end_tx-Counted refused w (ok new) m h g kind =
      ground (arith, h kind, increments-append kind w.metrics m)
  end_tx-Counted reply_lost w (ok new) m h g kind =
      ground (arith, h kind, g kind, increments-append kind w.metrics m)

  perform-Counted : (call : Call D) (w : World D) → Counted w → Counted (perform pg call w).1
  unfolding perform create_bill_activity append_line_item_activity close_bill_activity
      create_bill_body append_line_item_body close_bill_body
  perform-Counted (create c bill) w h =
      let body = create_bill_body pg c bill in
      in_tx-cases CountedAfter c body w
        (end_tx-Counted c.commit w (body w.db).0 (body w.db).1 h (create-Grows c bill w.db _ refl))
        h
  perform-Counted (append c i) w h =
      let body = append_line_item_body pg c i in
      in_tx-cases CountedAfter c body w
        (end_tx-Counted c.commit w (body w.db).0 (body w.db).1 h (append-Grows c i w.db _ refl)) h
  perform-Counted (close c i) w h =
      let body = close_bill_body pg c i in
      in_tx-cases CountedAfter c body w
        (end_tx-Counted c.commit w (body w.db).0 (body w.db).1 h (close-Grows c i w.db _ refl)) h

  -- After any history of activities, in any order and under any failures of their connections, the
  -- counters of opened bills, of accepted line items and of closed bills are each at least the number
  -- of the log's entries of that kind, if they were so before: nothing that is stored goes uncounted.
  pub perform_all-Counted :
      (calls : List (Call D)) (w : World D) → Counted w → Counted (perform_all pg calls w)
  unfolding perform_all
  perform_all-Counted [] w h = h
  perform_all-Counted (call ∷ calls) w h =
      perform_all-Counted calls (perform pg call w).1 (perform-Counted call w h)
