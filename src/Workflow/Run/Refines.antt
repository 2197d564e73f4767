-- ===== src/Workflow/Run/Refines.antt =====
-- A run against the contract of its bill: the account that its tables hold moves as the contract
-- says, and the running summary is a view of that account.
use mathlib.Core.Path.{subst}
use redesigned_disco.Prelude.{String, ◌≡◌, refl, sym, ap, ◌∙◌, List, [], ◌∷◌, length}
use redesigned_disco.Money.{Decimal, Postgres}
use redesigned_disco.Models.{Time, open_bill}
use redesigned_disco.Activities.{close_bill_activity}
use redesigned_disco.Activities.Closing.{IsClosed, execute_close-IsClosed}
use redesigned_disco.Activities.Retry.{Attempt, Kept-first, execute_activity}
use redesigned_disco.Workflow.Contract.{total, idle, Reaches, here, via, IsKept, Reaches-IsKept}
use redesigned_disco.Workflow.Run.Picking.{if_either}
use redesigned_disco.Workflow.Run.Agreement.{Agrees, ExactEvent, ExactRun, step-Agrees}
use redesigned_disco.Workflow.Run.{
  Run, Phase, Event, update, persisted, close_signal, timer_fired, handlers_finished,
  close_persisted, draining, finalizing, step, run_events, on_update, on_persisted,
  on_handlers_finished, on_close_persisted, is_running,
}
use redesigned_disco.Workflow.Run.Stacked.{SeenAs, account_of, stacked}
use redesigned_disco.Workflow.Run.Mirrors.{
  Mirrors, Moved, validated-Moved, persisting-Moved, drained-Moved,
}

module _ {D : Type 0} {d : Decimal D} (pg : Postgres D d) (key : String) where
  finished-Moved :
      (order : List String → List String) (now : Time) (r : Run D) (p : Phase D)
      → Mirrors pg key r
      → Moved pg key r (on_handlers_finished order now r p)
  unfolding on_handlers_finished
  finished-Moved order now r (draining reason) h =
      drained-Moved pg key order now r reason r.pending refl h
  finished-Moved order now r _ h = (idle _ _ refl, h)

  closing-Moved :
      (attempts : List Attempt) (r : Run D) (p : Phase D)
      → Mirrors pg key r
      → Moved pg key r (on_close_persisted pg attempts r p)
  unfolding on_close_persisted
  closing-Moved attempts r (finalizing reason input) h =
      let out = execute_activity (λ c. close_bill_activity pg c input) attempts r.world in
      let same =
        Kept-first (λ v. v.db.items ≡ r.world.db.items) (λ v. IsClosed pg input v.db) out
          (execute_close-IsClosed pg input attempts r.world) in
      let entries = ap (stacked key []) same in
      (
        idle _ _ (ap (λ es. record { entries = es; status = r.bill.status }) entries),
        record {
          total = h.total ∙ sym (ap (total d) entries);
          count = h.count ∙ sym (ap length entries);
          seen = subst (SeenAs pg r.seen) (sym entries) h.seen;
          quiet = h.quiet;
        },
      )
  closing-Moved attempts r _ h = (idle _ _ refl, h)

  same_bill :
      (r : Run D) (phase : Phase D) → Mirrors pg key r → Moved pg key r (record r { phase = phase })
  same_bill r phase h =
      (idle _ _ refl, record { total = h.total; count = h.count; seen = h.seen; quiet = h.quiet })

  -- An update comes while the bill is open; the other events are free.
  abbrev pub InTime : Run D → Event D → Type 0
  InTime r (update now request) = r.bill.status ≡ open_bill
  InTime r _ = Unit

  module _ (order : List String → List String) where
    abbrev pub InTimeRun : Run D → List (Event D) → Type 0
    InTimeRun r [] = Unit
    InTimeRun r (e ∷ es) = InTime r e × InTimeRun (step pg order r e).0 es

    pub step-Moved :
        (r : Run D) (e : Event D)
        → ExactEvent pg key order r e
        → InTime r e
        → Agrees pg key r
        → Mirrors pg key r
        → Moved pg key r (step pg order r e).0
    unfolding step on_update on_persisted
    step-Moved r (update now request) x op g h =
        if_either (Moved pg key r) (is_running r.phase) _ _
          (validated-Moved pg key now r request _ op h) (idle _ _ refl, h)
    step-Moved r (persisted n attempts) x op g h =
        if_either (Moved pg key r) (is_running r.phase) _ _
          (persisting-Moved pg key r attempts n _ r.bill.status refl refl x g h) (idle _ _ refl, h)
    step-Moved r close_signal x op g h = same_bill r _ h
    step-Moved r timer_fired x op g h = same_bill r _ h
    step-Moved r (handlers_finished now) x op g h = finished-Moved order now r r.phase h
    step-Moved r (close_persisted attempts) x op g h = closing-Moved attempts r r.phase h

    run-Reaches :
        (es : List (Event D)) (r : Run D)
        → ExactRun pg key order r es
        → InTimeRun r es
        → Agrees pg key r
        → Mirrors pg key r
        → Reaches d (account_of key r) (account_of key (run_events pg order r es))
          × Mirrors pg key (run_events pg order r es)
    unfolding run_events
    run-Reaches [] r x t g h = (here _, h)
    run-Reaches (e ∷ es) r x t g h =
        let (move, h') = step-Moved r e x.0 t.0 g h in
        let (rest, last) =
          run-Reaches es (step pg order r e).0 x.1 t.1 (step-Agrees pg key order r e x.0 g) h' in
        (via _ _ _ move rest, last)

    -- Let the amounts of the updates fit their column, the executions of the handlers' activities be
    -- exact (each succeeds for an item whose key was free, or fails and leaves the tables as they were)
    -- and the updates come while the bill is open. Then a run implements the contract of its bill: the
    -- account that its tables hold moves only as the contract says, so that it stays as it is once it
    -- is closed and takes no id twice; and after any events the running total, the count and the seen
    -- ids are those of that account, if they were so before.
    pub run_events-Reaches :
        (es : List (Event D)) (r : Run D)
        → ExactRun pg key order r es
        → InTimeRun r es
        → Agrees pg key r
        → Mirrors pg key r
        → let after = run_events pg order r es in
          Reaches d (account_of key r) (account_of key after)
          × IsKept d (account_of key r) (account_of key after)
          × Mirrors pg key after
    run_events-Reaches es r x t g h =
        let (reaches, mirrors) = run-Reaches es r x t g h in
        (reaches, Reaches-IsKept d _ _ reaches, mirrors)
