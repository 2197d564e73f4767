-- ===== src/Endpoints/LiveClose.antt =====
-- A CloseBill whose signal makes the bill's run close, and a retry of it.
use mathlib.Core.Path.{subst}
use mathlib.Core.Option.{some-injective}
use redesigned_disco.Prelude.{String, ◌≡◌, ◌≢◌, sym, ◌∙◌, ap, some, List, [], ◌∷◌, arith, length}
use redesigned_disco.Errs.{Result, ok, err}
use redesigned_disco.Money.{Decimal, Postgres}
use redesigned_disco.Models.{Time, CloseReason, unset, Bill, BillResult, closed_bill}
use redesigned_disco.Store.{Db, DbError, BillRow, find_bill}
use redesigned_disco.Store.Reads.{answered, all_answered}
use redesigned_disco.Views.{to_line_item_views}
use redesigned_disco.Activities.{World}
use redesigned_disco.Activities.Closing.{IsClosed}
use redesigned_disco.Activities.Ledger.{item_sum}
use redesigned_disco.Activities.Retry.{Attempt}
use redesigned_disco.Workflow.{finalize_and_persist, finalized, close_input, bill_result}
use redesigned_disco.Workflow.Run.{
  Run, completed, draining, handlers_finished, close_persisted, run_events,
}
use redesigned_disco.Workflow.Run.Agreement.{Agrees, run_events-Agrees}
use redesigned_disco.Workflow.Run.Chained.{KeepsIds, Lived, Lived-IsServed}
use redesigned_disco.Workflow.Run.Mirrors.{Mirrors}
use redesigned_disco.Workflow.Run.Refines.{run_events-Reaches}
use redesigned_disco.Workflow.Run.Closing.{
  ended, Settled, closing-finalize_and_persist, finalize_and_persist-Settled,
}
use redesigned_disco.Endpoints.Errors.{workflow_not_found, workflow_id}
use redesigned_disco.Endpoints.Loading.{TemporalClient, assert_owns_bill, items_of}
use redesigned_disco.Endpoints.Read.{CloseBillResponse, close_bill}
use redesigned_disco.Endpoints.Closing.{Reports, close_bill-idempotent}
use redesigned_disco.Endpoints.Shown.{shown_count}

module _ {D : Type 0} where
  ended_completed :
      (r : Result DbError (BillResult D)) (result : BillResult D)
      → ended r ≡ completed result
      → r ≡ ok result
  ended_completed (ok x) result h = ground arith
  ended_completed (err e) result h = cc

module _ {D : Type 0} {d : Decimal D} (pg : Postgres D d) (format : Time → String)
    (key : String) where
  -- The response is the invoice of the line items that are stored: it lists them all, and its total
  -- is their sum, as the column holds it. The workflow's result agrees.
  pub record IsInvoice (db : Db D) (now : Time) (reason : CloseReason) (result : BillResult D)
      (v : CloseBillResponse) : Type 0 where
    pub total : D
    pub rounded : pg.numeric (item_sum d key db.items) ≡ some total
    pub shown : v.total_amount ≡ d.to_text total
    pub lines : v.line_items ≡ to_line_item_views d format (items_of key db.items)
    pub count : length v.line_items ≡ result.item_count
    pub sum : result.total_amount ≡ item_sum d key db.items
    pub status : v.status ≡ closed_bill
    pub at : v.closed_at ≡ some (format now)
    pub reason_shown : v.close_reason ≡ reason

  Settled-ok :
      (now : Time) (reason : CloseReason) (bill : Bill D)
      (out : Result DbError (BillResult D) × Bill D × World D) (result : BillResult D)
      → Settled pg now reason bill out
      → out.0 ≡ ok result
      → (result ≡ bill_result reason bill)
        × (out.1 ≡ finalized now reason bill)
        × IsClosed pg (close_input now reason bill) out.2.db
  Settled-ok now reason bill (ok x, closing, w) result s e =
      let same : x ≡ result = ground arith in (sym same ∙ s.0, s.1, s.2)
  Settled-ok now reason bill (err x, closing, w) result s e = cc

  module _ (order : List String → List String) (r : Run D) (now : Time) (attempts : List Attempt)
      (reason : CloseReason) where
    abbrev pub closed_run : Run D
    closed_run = run_events pg order r (handlers_finished now ∷ close_persisted attempts ∷ [])

    -- What the run leaves where it completes.
    record Leaves (result : BillResult D) : Type 0 where
      is_closed : IsClosed pg (close_input now reason r.bill) closed_run.world.db
      sum : result.total_amount ≡ item_sum d key closed_run.world.db.items
      amount : r.bill.total_amount ≡ item_sum d key closed_run.world.db.items
      count :
          length (to_line_item_views d format (items_of key closed_run.world.db.items))
          ≡ result.item_count

    completed-Leaves :
        (result : BillResult D)
        → r.phase ≡ draining reason
        → reason ≢ unset
        → r.pending ≡ []
        → Agrees pg key r
        → Mirrors pg key r
        → closed_run.phase ≡ completed result
        → Leaves result
    unfolding finalized
    completed-Leaves result phase real empty g m done =
        let (over, bill, world) =
          closing-finalize_and_persist pg order r now attempts reason phase real empty in
        let out = finalize_and_persist pg attempts now reason r.bill r.world in
        let (same, closing, is_closed) =
          Settled-ok now reason r.bill out result
            (finalize_and_persist-Settled pg attempts now reason r.bill r.world)
            (ended_completed out.0 result (sym over ∙ done)) in
        let events = handlers_finished now ∷ close_persisted attempts ∷ [] in
        let agrees = run_events-Agrees pg key order events r (tt, (tt, tt)) g in
        let mirrors =
          (run_events-Reaches pg key order events r (tt, (tt, tt)) (tt, (tt, tt)) g m).2 in
        let final : closed_run.bill ≡ finalized now reason r.bill = bill ∙ closing in
        let amount : r.bill.total_amount ≡ item_sum d key closed_run.world.db.items =
          sym (ap (λ (b : Bill D). b.total_amount) final) ∙ agrees.total in
        record {
          is_closed =
              subst (λ (w : World D). IsClosed pg (close_input now reason r.bill) w.db) (sym world)
                is_closed;
          sum = ap (λ (x : BillResult D). x.total_amount) same ∙ amount;
          amount = amount;
          count =
              shown_count key d format closed_run.world.db.items
              ∙ sym mirrors.count
              ∙ ap (λ (b : Bill D). b.item_count) final
              ∙ sym (ap (λ (x : BillResult D). x.item_count) same);
        }

    invoice :
        (result : BillResult D) (v : CloseBillResponse) (k : String)
        → k ≡ key
        → Leaves result
        → Reports pg format (close_input now reason r.bill) k closed_run.world.db v
        → IsInvoice closed_run.world.db now reason result v
    unfolding close_input
    invoice result v k same l report =
        let lines =
          report.items
          ∙ ap (λ x. to_line_item_views d format (items_of x closed_run.world.db.items)) same in
        record {
          total = report.total;
          rounded = subst (λ a. pg.numeric a ≡ some report.total) l.amount report.rounded;
          shown = report.shown;
          lines = lines;
          count = ap length lines ∙ l.count;
          sum = l.sum;
          status = report.status;
          at = report.at;
          reason_shown = report.reason;
        }

    -- A run, in a state of the life of its bill (`Lived`) in which it is to close and has no handlers left, finds
    -- them finished, and the end of its closing activity completes it. A CloseBill by the bill's owner
    -- whose signal is taken and which awaits this result, on a database that answers, and a retry once
    -- the workflow is gone, then get the same response: the bill is closed, at the instant and for
    -- the reason of the run, with every stored line item, as many as the workflow's result counts, and
    -- with the sum of their amounts as the column holds it. The order in which Go ranges over the map
    -- of seen ids lists the ids of that map.
    pub close_bill-IsInvoice :
        (result : BillResult D) (t u : TemporalClient D) (caller : String) (before : Db D)
        → r.phase ≡ draining reason
        → reason ≢ unset
        → r.pending ≡ []
        → KeepsIds order
        → Lived pg key order r
        → closed_run.phase ≡ completed result
        → assert_owns_bill pg t answered r.bill.id caller before ≡ ok tt
        → t.signal_close (workflow_id r.bill.id) ≡ ok tt
        → t.await_result (workflow_id r.bill.id) ≡ ok result
        → u.query (workflow_id r.bill.id) ≡ err workflow_not_found
        → u.signal_close (workflow_id r.bill.id) ≡ err workflow_not_found
        → ((row : BillRow D)
            → find_bill key closed_run.world.db.bills ≡ some row
            → row.account_id ≡ caller)
        → let after = closed_run.world.db in
          (v : CloseBillResponse) × (close_bill pg format t all_answered r.bill.id caller before
              after
            ≡ ok v)
          × (close_bill pg format u all_answered r.bill.id caller after after ≡ ok v)
          × IsInvoice after now reason result v
    unfolding close_input
    close_bill-IsInvoice result t u caller before phase real empty ids h done owns signal awaited
          gone gone' own =
        let s = Lived-IsServed pg key order ids r h in
        let l = completed-Leaves result phase real empty s.agrees s.mirrors done in
        let c = l.is_closed in
        let same : c.key ≡ key = some-injective _ _ (sym c.key_read ∙ s.agrees.read) in
        let (v, first, again, report) =
          close_bill-idempotent pg format (close_input now reason r.bill) t u caller before
            closed_run.world.db result c owns signal awaited gone gone'
            (λ row e.
              own row (subst (λ k. find_bill k closed_run.world.db.bills ≡ some row) same e)) in
        (v, first, again, invoice result v c.key same l report)
