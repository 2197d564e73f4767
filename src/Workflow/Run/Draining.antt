-- ===== src/Workflow/Run/Draining.antt =====
-- A run that is told to close comes to its end.
use mathlib.Core.Path.{subst}
use redesigned_disco.Prelude.{
  ◌≡◌, ◌≢◌, refl, sym, ◌⊎◌, inl, inr, List, [], ◌∷◌, ◌++◌, map, length, arith, String,
}
use redesigned_disco.Errs.{Result, ok, err}
use redesigned_disco.Money.{Decimal, Postgres}
use redesigned_disco.Models.{Time, CloseReason, unset, by_signal, BillResult}
use redesigned_disco.Store.{DbError}
use redesigned_disco.Activities.{World, append_line_item_activity}
use redesigned_disco.Activities.Retry.{Attempt, execute_activity}
use redesigned_disco.Workflow.Run.Closing.{ended, closing-finalize_and_persist}
use redesigned_disco.Workflow.Run.{
  Run, Phase, Handler, Event, persisted, close_signal, handlers_finished, close_persisted, awaiting,
  draining, completed, failed, step, run_events, on_persisted, resumed,
}

-- The run has its result, or the error of its close.
abbrev pub IsOver : {D : Type 0} → Phase D → Type 0
IsOver {D} p = ((r : BillResult D) × (p ≡ completed r)) ⊎ ((e : DbError) × (p ≡ failed e))

module _ {D : Type 0} {d : Decimal D} (pg : Postgres D d) (order : List String → List String) where
  -- The handlers in flight end, one after the other, each after its own attempts.
  abbrev pub handlers_end : List (List Attempt) → List (Event D)
  handlers_end tries = map (λ a. persisted 0 a) tries

  resumed-draining :
      (r : Run D) (reason : CloseReason) (h : Handler D) (rest : List (Handler D))
      (o : Result DbError (Unit {0}) × World D)
      → r.phase ≡ draining reason
      → ((resumed d r h rest o).0.phase ≡ draining reason)
        × ((resumed d r h rest o).0.pending ≡ rest)
  resumed-draining r reason h rest (ok u, w) e = (rw e refl, refl)
  resumed-draining r reason h rest (err x, w) e = (e, refl)

  persisted-draining :
      (r : Run D) (reason : CloseReason) (h : Handler D) (rest : List (Handler D))
      (a : List Attempt)
      → r.phase ≡ draining reason
      → r.pending ≡ h ∷ rest
      → ((step pg order r (persisted 0 a)).0.phase ≡ draining reason)
        × ((step pg order r (persisted 0 a)).0.pending ≡ rest)
  unfolding step on_persisted
  persisted-draining r reason h rest a e p =
      let now = record r { pending = h ∷ rest; phase = draining reason } in
      let out = execute_activity (λ c. append_line_item_activity pg c h.activity) a r.world in
      rw (e, p) (resumed-draining now reason h rest out refl)

  ended-IsOver : (r : Result DbError (BillResult D)) → IsOver (ended r)
  ended-IsOver (ok x) = inl (x, refl)
  ended-IsOver (err e) = inr (e, refl)

  ended_draining :
      (r : Run D) (reason : CloseReason) (now : Time) (a : List Attempt)
      → reason ≢ unset
      → r.phase ≡ draining reason
      → r.pending ≡ []
      → IsOver (run_events pg order r (handlers_finished now ∷ close_persisted a ∷ [])).phase
  ended_draining r reason now a real e p =
      let (phase, _, _) = closing-finalize_and_persist pg order r now a reason e real p in
      subst IsOver (sym phase) (ended-IsOver _)

  drain :
      (hs : List (Handler D)) (tries : List (List Attempt)) (r : Run D) (reason : CloseReason)
      (now : Time) (a : List Attempt)
      → length tries ≡ length hs
      → reason ≢ unset
      → r.phase ≡ draining reason
      → r.pending ≡ hs
      → IsOver
          (run_events pg order r
            (handlers_end tries ++ handlers_finished now ∷ close_persisted a ∷ [])).phase
  unfolding run_events
  drain [] [] r reason now a n real e p = ended_draining r reason now a real e p
  drain [] (x ∷ tries) r reason now a n real e p = absurd (omega arith)
  drain (h ∷ hs) [] r reason now a n real e p = absurd (omega arith)
  drain (h ∷ hs) (x ∷ tries) r reason now a n real e p =
      let (e', p') = persisted-draining r reason h hs x e p in
      drain hs tries (step pg order r (persisted 0 x)).0 reason now a (ground arith) real e' p'

  -- A run that waits in awaitCloseOrThreshold and gets the close signal ends, once each of its handlers
  -- in flight has ended, they are found finished, and the closing activity has ended, with no update
  -- in between: whatever comes of the attempts at the activities, it completes with its result or
  -- fails with the error.
  pub close_signal_ends_run :
      (r : Run D) (tries : List (List Attempt)) (now : Time) (a : List Attempt)
      → r.phase ≡ awaiting
      → length tries ≡ length r.pending
      → IsOver
          (run_events pg order r (
            close_signal ∷ handlers_end tries
            ++ handlers_finished now ∷ close_persisted a ∷ [])).phase
  unfolding run_events step
  close_signal_ends_run r tries now a e n =
      drain r.pending tries (step pg order r close_signal).0 by_signal now a n real (rw e refl) refl
    where
      real : by_signal ≢ unset
      real k = cc
