-- ===== src/Tests/Sound.antt =====
-- The theorems about runs and the tables together, at concrete runs.
use redesigned_disco.Tests.Storage.{life, unheard, empty-IsLedger, empty_audit, empty-IsKeyed}
use redesigned_disco.Workflow.Run.Sound.{migrated_run-IsSound, IsSound}
use redesigned_disco.Models.{BillWorkflowInput, item_added, by_signal}
use redesigned_disco.Workflow.Run.{
  Event, persisted, Run, Handler, update, run_events, start_run, step, completed, on_update,
  on_persisted, close_signal, handlers_finished, close_persisted,
}
use redesigned_disco.Store.Seed.{migrated}
use redesigned_disco.Activities.Calls.{perform_all}
use redesigned_disco.Prelude.{ℕ, List, ◌++◌, suc, ◌≡◌, refl, [], ◌∷◌, ◌+◌, false, true}
use redesigned_disco.Store.{connection}
use redesigned_disco.Store.Statements.{
  insert_bill, insert_line_item, insert_event, add_to_total, close_bill_row,
}
use redesigned_disco.Activities.{
  item_payload, create_bill_activity, append_line_item_activity, close_bill_activity, append_event,
}
use redesigned_disco.Activities.Append.{Appended, Taken}
use redesigned_disco.Activities.Closing.{IsClosed}
use redesigned_disco.Activities.Retry.{Attempt, execute_activity}
use redesigned_disco.Workflow.{close_input, finalized, bill_result, validate}
use redesigned_disco.Workflow.Run.Agreement.{Agrees, run_events-Agrees, ExactRun}
use redesigned_disco.Workflow.Run.Draining.{IsOver, handlers_end, close_signal_ends_run}
use redesigned_disco.Workflow.Run.Unheard.{appending, last_events, unheard_item_missing_from_close}
use redesigned_disco.Activities.Ledger.{item_sum}
use redesigned_disco.Workflow.Run.Late.{late, late_item_missing_from_close}
use redesigned_disco.Workflow.Run.Races.{activity_input}
use redesigned_disco.Tests.Fixtures.{units, tables, delivered_as, empty_world, first_input, fee}
use redesigned_disco.Tests.Runs.{begun_run, events, same_order, signalled_run}

empty-IsSound : IsSound tables empty_world.db
empty-IsSound = record { ledger = empty-IsLedger; audited = empty_audit; keyed = empty-IsKeyed }

abbrev other_input : BillWorkflowInput ℕ
other_input = record first_input { bill_id = "b2" }

abbrev other_events : List (Event ℕ)
other_events =
    update 3 (record fee { item_id = "i2" })
    ∷ persisted 0 (delivered_as "e8" ∷ [])
    ∷ close_signal
    ∷ []

-- Another bill on a migrated database, and then the run of the first.
migrated_run-IsSound_example :
    let w = perform_all tables life (record { db = migrated; metrics = [] }) in
    IsSound tables
      (run_events tables same_order
        (start_run tables 1 2 (delivered_as "e9" ∷ []) other_input w)
        other_events).world.db
migrated_run-IsSound_example =
    migrated_run-IsSound tables life [] same_order 1 2 (delivered_as "e9" ∷ []) other_input
      other_events

pub begun-Agrees : Agrees tables "b1" begun_run
unfolding start_run create_bill_activity execute_activity append_event insert_bill insert_event
begun-Agrees = record { read = refl; total = refl; own = tt }

pub no_confusion : false ≡ true → ⊥
no_confusion e = cc

pub exact_events : ExactRun tables "b1" same_order begun_run events
unfolding start_run step execute_activity create_bill_activity append_line_item_activity
    append_event insert_bill insert_line_item insert_event add_to_total on_update on_persisted
exact_events = (refl, (λ taken. no_confusion taken.2, (refl, (tt, (tt, (tt, tt))))))

run_events-Agrees_example : Agrees tables "b1" (run_events tables same_order begun_run events)
run_events-Agrees_example =
    run_events-Agrees tables "b1" same_order events begun_run exact_events begun-Agrees

late_item_missing_from_close_example :
    let after = run_events tables same_order signalled_run (
      late tables same_order signalled_run fee 8 9 by_signal
        (delivered_as "e2" ∷ [])
        (delivered_as "e3" ∷ [])) in
    (after.phase
      ≡ completed (record (bill_result by_signal signalled_run.bill) {
        total_amount = signalled_run.bill.total_amount + 15;
        item_count = suc signalled_run.bill.item_count;
      }))
    × Taken tables (activity_input 9 signalled_run.bill fee) after.world.db
    × IsClosed tables (close_input 8 by_signal signalled_run.bill) after.world.db
unfolding start_run execute_activity create_bill_activity append_line_item_activity
    close_bill_activity append_event insert_bill insert_line_item insert_event add_to_total
    close_bill_row validate close_input finalized
late_item_missing_from_close_example =
    late_item_missing_from_close tables same_order signalled_run fee 8 9 by_signal
      (delivered_as "e2" ∷ []) (delivered_as "e3" ∷ []) refl refl (λ e. cc) refl refl refl refl

-- The run with one handler in flight.
abbrev waiting_run : Run ℕ
waiting_run = run_events tables same_order begun_run (update 2 fee ∷ [])

close_signal_ends_run_example :
    IsOver
      (run_events tables same_order waiting_run (
        close_signal ∷ handlers_end tables same_order ((delivered_as "e2" ∷ []) ∷ [])
        ++ handlers_finished 8 ∷ close_persisted (delivered_as "e3" ∷ []) ∷ [])).phase
unfolding run_events start_run step execute_activity create_bill_activity append_event insert_bill
    insert_event on_update
close_signal_ends_run_example =
    close_signal_ends_run tables same_order waiting_run ((delivered_as "e2" ∷ []) ∷ []) 8
      (delivered_as "e3" ∷ []) refl refl

abbrev fee_handler : Handler ℕ
fee_handler = record { update = fee; activity = activity_input 2 begun_run.bill fee }

abbrev closing_run : Run ℕ
closing_run = record signalled_run { pending = fee_handler ∷ [] }

-- One attempt, whose commit goes through and whose reply is lost.
abbrev lost_reply : List Attempt
lost_reply = record { conn = unheard; delivered = true } ∷ []

abbrev closing_delivered : List Attempt
closing_delivered = delivered_as "e3" ∷ []

closing_run-Agrees : Agrees tables "b1" closing_run
unfolding start_run create_bill_activity execute_activity append_event insert_bill insert_event
closing_run-Agrees = record {
  read = refl;
  total = refl;
  own = (record { bill = refl; item = refl; amount = refl; fits = refl }, tt);
}

stored_unheard :
    Appended tables fee_handler.activity closing_run.world.db
      (appending tables same_order closing_run fee_handler 8 by_signal lost_reply
        closing_delivered).1.db
unfolding start_run create_bill_activity execute_activity append_line_item_activity append_event
    insert_bill insert_line_item insert_event add_to_total
stored_unheard = record {
  key = "i1";
  bill = "b1";
  amount = 15;
  rows =
      (appending tables same_order closing_run fee_handler 8 by_signal lost_reply
        closing_delivered).1.db.bills;
  entry = record {
    id = "e2";
    bill_id = "b1";
    kind = item_added;
    actor = "acct-alpha";
    payload = item_payload units fee_handler.activity.item;
    created_at = 7;
  };
  key_read = refl;
  bill_read = refl;
  amount_read = refl;
  positive = refl;
  fresh = refl;
  known = refl;
  rows_read = refl;
  entry_read = refl;
  entry_fresh = refl;
  entry_kind = refl;
  entry_bill = refl;
  result = refl;
}

unheard_item_missing_from_close_example :
    let after = run_events tables same_order closing_run (
      last_events tables same_order closing_run fee_handler 8 by_signal lost_reply
        closing_delivered) in
    (after.phase ≡ completed (bill_result by_signal closing_run.bill))
    × (item_sum units "b1" after.world.db.items ≡ closing_run.bill.total_amount + 15)
unfolding start_run create_bill_activity execute_activity append_line_item_activity
    close_bill_activity append_event insert_bill insert_line_item insert_event add_to_total
    close_bill_row close_input finalized
unheard_item_missing_from_close_example =
    unheard_item_missing_from_close tables same_order closing_run fee_handler 8 by_signal lost_reply
      closing_delivered "b1" connection refl (λ e. cc) refl closing_run-Agrees refl stored_unheard
      refl
