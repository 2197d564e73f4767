-- ===== src/Workflow/Run/Sound.antt =====
-- The invariants of the tables at every state of a run, and the bill's row against the run's total.
use redesigned_disco.Prelude.{String, ◌≡◌, refl, sym, ◌∙◌, ap, List, [], ◌∷◌, All, All-map}
use redesigned_disco.Money.{Decimal, Postgres}
use redesigned_disco.Models.{Time, BillWorkflowInput, open_bill}
use redesigned_disco.Store.{Db}
use redesigned_disco.Store.Seed.{migrated}
use redesigned_disco.Activities.{World, Metric}
use redesigned_disco.Activities.Calls.{Call, perform, perform_all}
use redesigned_disco.Activities.Ledger.{IsLedger, item_sum}
use redesigned_disco.Activities.LedgerKept.{perform_all-IsLedger}
use redesigned_disco.Activities.Audit.{IsAudited}
use redesigned_disco.Activities.AuditKept.{perform_all-IsAudited}
use redesigned_disco.Activities.Keys.{IsKeyed, perform_all-IsKeyed}
use redesigned_disco.Activities.Retry.{Attempt}
use redesigned_disco.Workflow.Run.{Run, Event, run_events, start_run}
use redesigned_disco.Workflow.Run.Agreement.{Agrees, ExactRun, run_events-Agrees}
use redesigned_disco.Workflow.Run.Tables.{run_events-keeps, start_run-keeps}

module _ {D : Type 0} {d : Decimal D} (pg : Postgres D d) where
  -- The invariants of the tables.
  pub record IsSound (db : Db D) : Type 0 where
    pub ledger : IsLedger pg db
    pub audited : IsAudited db
    pub keyed : IsKeyed pg db

  perform-IsSound : (call : Call D) (w : World D) → IsSound w.db → IsSound (perform pg call w).1.db
  unfolding perform_all
  perform-IsSound call w s = record {
    ledger = perform_all-IsLedger pg (call ∷ []) w s.ledger;
    audited = perform_all-IsAudited pg (call ∷ []) w s.audited;
    keyed = perform_all-IsKeyed pg (call ∷ []) w s.keyed;
  }

  perform-IsLedger :
      (call : Call D) (w : World D) → IsLedger pg w.db → IsLedger pg (perform pg call w).1.db
  unfolding perform_all
  perform-IsLedger call w l = perform_all-IsLedger pg (call ∷ []) w l

  -- A run of the workflow, from its start and through any events (updates that race, activities that
  -- fail, commits that nobody hears of), leaves sound tables sound: every open bill's total is the
  -- sum of its stored items, the log has its entries, and the keys are unique.
  pub run_events-IsSound :
      (order : List String → List String) (now later : Time) (attempts : List Attempt)
      (input : BillWorkflowInput D) (w : World D) (es : List (Event D))
      → IsSound w.db
      → IsSound (run_events pg order (start_run pg now later attempts input w) es).world.db
  run_events-IsSound order now later attempts input w es s =
      run_events-keeps pg IsSound perform-IsSound order es (start_run pg now later attempts input w)
        (start_run-keeps pg IsSound perform-IsSound now later attempts input w s)

  migrated-IsSound : IsSound migrated
  migrated-IsSound = record {
    ledger = record { balanced = tt; referenced = λ bill h. refl };
    audited = record {
      recorded = tt;
      no_entries = λ bill h. refl;
      no_additions = λ bill h. refl;
      no_items = λ bill h. refl;
    };
    keyed = record {
      bills = record { distinct = tt; canonical = tt };
      items = record { distinct = tt; canonical = tt };
      events = record { distinct = tt; canonical = tt };
    };
  }

  perform_all-IsSound :
      (calls : List (Call D)) (w : World D) → IsSound w.db → IsSound (perform_all pg calls w).db
  unfolding perform_all
  perform_all-IsSound [] w s = s
  perform_all-IsSound (call ∷ calls) w s =
      perform_all-IsSound calls (perform pg call w).1 (perform-IsSound call w s)

  -- From a database as the migrations leave it: after any history of activities (of other bills, say)
  -- and through any run of the workflow, from its start and at any events, under any failures of the
  -- connections, updates that race and commits that nobody hears of, the tables are sound: every open
  -- bill's total is the sum of its stored items, the log has its entries, and the keys are unique.
  pub migrated_run-IsSound :
      (calls : List (Call D)) (metrics : List Metric) (order : List String → List String)
      (now later : Time) (attempts : List Attempt) (input : BillWorkflowInput D)
      (es : List (Event D))
      → let w = perform_all pg calls (record { db = migrated; metrics = metrics }) in
        IsSound (run_events pg order (start_run pg now later attempts input w) es).world.db
  migrated_run-IsSound calls metrics order now later attempts input es =
      let first : World D = record { db = migrated; metrics = metrics } in
      run_events-IsSound order now later attempts input (perform_all pg calls first) es
        (perform_all-IsSound calls first migrated-IsSound)

  -- Where amounts fit their column and the executions of the handlers' activities are exact, the row
  -- of an open bill holds the total of its run after any events, if the run's total was the sum of the
  -- stored items before and each open bill's total was that of its items.
  pub run_events-matches_row :
      (key : String) (order : List String → List String) (es : List (Event D)) (r : Run D)
      → ExactRun pg key order r es
      → Agrees pg key r
      → IsLedger pg r.world.db
      → let after = run_events pg order r es in
        All
          (λ row.
            row.id ≡ key → row.status ≡ open_bill → row.total_amount ≡ after.bill.total_amount)
          after.world.db.bills
  run_events-matches_row key order es r x a l =
      let after = run_events pg order r es in
      let agrees = run_events-Agrees pg key order es r x a in
      let ledger = run_events-keeps pg (IsLedger pg) perform-IsLedger order es r l in
      All-map _ _ after.world.db.bills
        (λ row balanced here op.
          (balanced op).2 ∙ ap (λ k. item_sum d k after.world.db.items) here ∙ sym agrees.total)
        ledger.balanced
