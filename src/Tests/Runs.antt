-- ===== src/Tests/Runs.antt =====
-- The theorems about runs of the workflow at concrete runs.
use redesigned_disco.Prelude.{
  ℕ, String, ◌≡◌, refl, none, some, List, [], ◌∷◌, arith, contains, ◌↔◌, ◌≢◌,
}
use redesigned_disco.Errs.{ok}
use redesigned_disco.Models.{BillWorkflowInput, by_signal}
use redesigned_disco.Activities.{
  append_line_item_activity, create_bill_activity, close_bill_activity, append_event,
}
use redesigned_disco.Activities.Retry.{execute_activity}
use redesigned_disco.Store.Statements.{
  insert_bill, insert_line_item, insert_event, add_to_total, close_bill_row,
}
use redesigned_disco.Workflow.{
  finalize_and_persist, close_input, finalized, continue_as_new, initial_bill, initial_seen,
  validate, bill_not_found, currency_mismatch,
}
use redesigned_disco.Workflow.Laws.{IsAcceptable, validate_verdicts, continue_as_new-round_trip}
use redesigned_disco.Workflow.Run.{
  Run, Event, update, persisted, close_signal, handlers_finished, close_persisted, start_run,
  run_events, draining, step,
}
use redesigned_disco.Workflow.Run.Rolling.{RollingPhase, full_bill_never_closes, first}
use redesigned_disco.Workflow.Run.Counting.{IsCounted}
use redesigned_disco.Workflow.Run.Serial.{run_events-IsCounted}
use redesigned_disco.Workflow.Run.Closing.{HasEnded, closing_run-HasEnded}
use redesigned_disco.Workflow.Run.Races.{duplicate_in_flight_counts_twice}
use redesigned_disco.Tests.Fixtures.{
  units, tables, delivered, delivered_as, empty_world, open_bill_of, first_input, fee,
}

abbrev pub same_order : List String → List String
same_order ids = ids

abbrev pub begun_run : Run ℕ
begun_run = start_run tables 1 2 (delivered ∷ []) first_input empty_world

abbrev pub events : List (Event ℕ)
events =
    update 2 fee
    ∷ persisted 0 (delivered_as "e2" ∷ [])
    ∷ update 3 fee
    ∷ close_signal
    ∷ handlers_finished 4
    ∷ close_persisted (delivered_as "e3" ∷ [])
    ∷ []

run_completes :
    let after = run_events tables same_order begun_run events in
    (after.bill.total_amount ≡ 15) × (after.bill.item_count ≡ 1)
unfolding run_events start_run step execute_activity create_bill_activity append_line_item_activity
    close_bill_activity append_event insert_bill insert_line_item insert_event add_to_total
    close_bill_row
run_completes = (refl, refl)

continue_as_new-round_trip_example :
    let next = continue_as_new same_order first_input (open_bill_of 30 2) ("i1" ∷ "i2" ∷ []) in
    (initial_bill units 9 next ≡ open_bill_of 30 2)
    × ((k : String) → contains (initial_seen next) k ≡ contains ("i1" ∷ "i2" ∷ []) k)
continue_as_new-round_trip_example =
    continue_as_new-round_trip units same_order (λ ids k. refl) 9 first_input (open_bill_of 30 2)
      ("i1" ∷ "i2" ∷ []) (record { not_closed = refl; no_reason = refl; no_items = refl })

validate_verdicts_example :
    ((validate units (open_bill_of 0 0) fee ≡ none) ↔ IsAcceptable units (open_bill_of 0 0) fee)
    × ((validate units (open_bill_of 0 0) fee ≡ some bill_not_found)
        ↔ (fee.caller_account_id ≢ (open_bill_of 0 0).account_id))
    × ((validate units (open_bill_of 0 0) fee ≡ some (currency_mismatch "USD" "USD")) ↔ (
        (fee.caller_account_id ≡ (open_bill_of 0 0).account_id)
        × (fee.currency ≢ (open_bill_of 0 0).currency)))
validate_verdicts_example = validate_verdicts units (open_bill_of 0 0) fee

-- A bill of a thousand items, as a run hands it on.
abbrev full_input : BillWorkflowInput ℕ
full_input = record first_input { snapshot = some (open_bill_of 15_000 1000) }

full_bill_never_closes_example :
    RollingPhase
      (run_events tables same_order
        (start_run tables 5 6 [] full_input empty_world)
        (close_signal ∷ handlers_finished 6 ∷ close_persisted (delivered_as "e3" ∷ []) ∷ [])).phase
full_bill_never_closes_example =
    full_bill_never_closes tables same_order full_input
      (open_bill_of 15_000 1000, refl, omega arith) first 5 6 [] empty_world
      (close_signal ∷ handlers_finished 6 ∷ close_persisted (delivered_as "e3" ∷ []) ∷ [])

begun_run-IsCounted : IsCounted begun_run
unfolding start_run
begun_run-IsCounted = record { count = refl; once = tt; apart = tt; separate = tt }

run_events-IsCounted_example : IsCounted (run_events tables same_order begun_run events)
unfolding start_run step execute_activity create_bill_activity append_line_item_activity
    append_event insert_bill insert_line_item insert_event add_to_total
run_events-IsCounted_example =
    run_events-IsCounted tables same_order events begun_run
      (refl, (tt, (refl, (tt, (tt, (tt, tt)))))) begun_run-IsCounted

duplicate_in_flight_counts_twice_example :
    (run_events tables same_order begun_run (
      update 2 fee
      ∷ update 3 fee
      ∷ persisted 0 (delivered_as "e2" ∷ [])
      ∷ persisted 0 (delivered_as "e2" ∷ [])
      ∷ [])).bill.total_amount
    ≡ 30
unfolding start_run execute_activity create_bill_activity append_line_item_activity append_event
    insert_bill insert_line_item insert_event add_to_total validate
duplicate_in_flight_counts_twice_example =
    (duplicate_in_flight_counts_twice tables same_order begun_run fee 2 3 (delivered_as "e2" ∷ [])
      (delivered_as "e2" ∷ []) refl refl refl refl refl refl).0

abbrev pub signalled_run : Run ℕ
signalled_run = record begun_run { phase = draining by_signal }

begun_run_has_no_handlers : begun_run.pending ≡ []
unfolding start_run
begun_run_has_no_handlers = refl

closing_run-HasEnded_example : HasEnded tables 8 by_signal signalled_run (
    run_events tables same_order signalled_run
      (handlers_finished 8 ∷ close_persisted (delivered_as "e3" ∷ []) ∷ []))
closing_run-HasEnded_example =
    closing_run-HasEnded tables same_order signalled_run 8 (delivered_as "e3" ∷ []) by_signal refl
      (λ e. cc) begun_run_has_no_handlers

-- The close of a run that has just begun returns its summary.
close_returns :
    (finalize_and_persist tables
      (delivered_as "e3" ∷ [])
      8
      by_signal
      begun_run.bill
      begun_run.world).0
    ≡ ok (record {
      bill_id = "b1";
      total_amount = 0;
      currency = "USD";
      item_count = 0;
      close_reason = by_signal;
    })
unfolding start_run finalize_and_persist execute_activity create_bill_activity close_bill_activity
    append_event insert_bill insert_event close_bill_row close_input finalized
close_returns = refl
