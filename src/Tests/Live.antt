-- ===== src/Tests/Live.antt =====
-- The theorems about a run and the account of its bill at concrete runs.
use mathlib.Core.Option.{some-injective}
use redesigned_disco.Prelude.{ap, sym, List, suc, ◌+◌, ℕ, ◌≡◌, refl, some, [], ◌∷◌}
use redesigned_disco.Store.{BillRow, find_bill}
use redesigned_disco.Workflow.{finalized, close_input, validate}
use redesigned_disco.Models.{by_signal, AddLineItemResult}
use redesigned_disco.Store.Statements.{
  close_bill_row, insert_bill, insert_line_item, insert_event, add_to_total,
}
use redesigned_disco.Activities.{
  close_bill_activity, create_bill_activity, append_line_item_activity, append_event,
}
use redesigned_disco.Endpoints.Loading.{
  assert_owns_bill, load_bill_summary, query_bill_state, TemporalClient,
}
use redesigned_disco.Workflow.Run.{
  close_signal, on_handlers_finished, on_close_persisted, Run, Event, update, persisted, run_events,
  start_run, step, on_update, on_persisted,
}
use redesigned_disco.Endpoints.Read.{CloseBillResponse, close_bill, get_bill}
use redesigned_disco.Endpoints.LiveClose.{IsInvoice, closed_run, close_bill-IsInvoice}
use redesigned_disco.Tests.Requests.{without_workflow, serving, with_bill, registry, clock}
use redesigned_disco.Tests.Lists.{closing_workflow, summary}
use redesigned_disco.Workflow.Run.Reused.{reused_id_counted}
use redesigned_disco.Errs.{ok}
use redesigned_disco.Store.Reads.{all_answered}
use redesigned_disco.Activities.Retry.{execute_activity}
use redesigned_disco.Registry.{valid}
use redesigned_disco.Views.{BillView, parse_amount}
use redesigned_disco.Workflow.Run.Agreement.{ExactRun}
use redesigned_disco.Workflow.Run.Chained.{
  KeepsIds, Lived, IsServed, begins, Lived-run, Lived-IsServed,
}
use redesigned_disco.Workflow.Run.Replies.{IsView, step-IsView}
use redesigned_disco.Endpoints.AddItem.{AddLineItemRequest, add_line_item}
use redesigned_disco.Endpoints.Live.{response_of, ShowsAdded, add_line_item-get_bill}
use redesigned_disco.Tests.Fixtures.{
  units, tables, delivered, first_input, empty_world, delivered_as, fee,
}
use redesigned_disco.Tests.Runs.{begun_run, events, same_order}
use redesigned_disco.Tests.Sound.{exact_events, no_confusion}

begun-Lived : Lived tables "b1" same_order begun_run
begun-Lived = begins 1 2 (delivered ∷ []) first_input empty_world refl refl refl tt

same_ids : KeepsIds same_order
same_ids xs k = refl

Lived-IsServed_example : IsServed tables "b1" (run_events tables same_order begun_run events)
unfolding start_run step execute_activity create_bill_activity append_line_item_activity
    append_event insert_bill insert_line_item insert_event add_to_total on_update on_persisted
Lived-IsServed_example =
    Lived-IsServed tables "b1" same_order (λ xs k. refl)
      (run_events tables same_order begun_run events)
      (Lived-run tables "b1" same_order events begun_run
        (begins 1 2 (delivered ∷ []) first_input empty_world refl refl refl tt) exact_events
        (refl, (tt, (refl, (tt, (tt, (tt, tt)))))))

-- The run with one update in flight, whose activity then ends.
abbrev in_flight_run : Run ℕ
in_flight_run = run_events tables same_order begun_run (update 2 fee ∷ [])

abbrev ends : Event ℕ
ends = persisted 0 (delivered_as "e2" ∷ [])

abbrev told : AddLineItemResult ℕ
told = record { item_id = "i1"; bill_total = 15; item_count = 1 }

in_flight-Lived : Lived tables "b1" same_order in_flight_run
unfolding start_run
in_flight-Lived =
    Lived-run tables "b1" same_order (update 2 fee ∷ []) begun_run begun-Lived (refl, tt) (refl, tt)

step-IsView_example : IsView tables "b1" (step tables same_order in_flight_run ends).0 told
unfolding run_events start_run step execute_activity create_bill_activity append_line_item_activity
    append_event insert_bill insert_line_item insert_event add_to_total on_update on_persisted
step-IsView_example =
    step-IsView tables "b1" same_order in_flight_run ends told same_ids in_flight-Lived
      (λ taken. no_confusion taken.2) tt refl

abbrev fee_request : AddLineItemRequest
fee_request = record {
  idempotency_key = "i1";
  description = "Monthly fee";
  amount = "|||||||||||||||";
  currency = "USD";
}

-- A client whose update is answered by the run.
abbrev updating : TemporalClient ℕ
updating = record with_bill { update = λ id request. ok (ok told) }

abbrev after : Run ℕ
after = (step tables same_order in_flight_run ends).0

add_line_item-get_bill_example :
    (w : BillView) × (get_bill tables clock
        (serving (ok (some after.bill)))
        all_answered
        "b1"
        "acct-alpha"
        after.world.db
      ≡ ok w)
    × ShowsAdded tables clock "b1" after.world.db (response_of units told) w
unfolding run_events start_run step execute_activity create_bill_activity append_line_item_activity
    append_event insert_bill insert_line_item insert_event add_to_total on_update on_persisted
    add_line_item parse_amount valid
add_line_item-get_bill_example =
    add_line_item-get_bill tables clock "b1" same_order in_flight_run ends updating
      (serving (ok (some after.bill))) registry "fresh" "acct-alpha" "b1" fee_request 15 told
      (response_of units told) [] same_ids in_flight-Lived (λ taken. no_confusion taken.2) tt refl
      refl refl refl refl refl refl

-- The run with one item, told to close.
abbrev leading : List (Event ℕ)
leading = update 2 fee ∷ ends ∷ close_signal ∷ []

abbrev told_to_close : Run ℕ
told_to_close = run_events tables same_order begun_run leading

leading_is_exact : ExactRun tables "b1" same_order begun_run leading
unfolding start_run step execute_activity create_bill_activity append_line_item_activity
    append_event insert_bill insert_line_item insert_event add_to_total on_update on_persisted
leading_is_exact = (refl, (λ taken. no_confusion taken.2, (tt, tt)))

closing-Lived : Lived tables "b1" same_order told_to_close
unfolding start_run
closing-Lived =
    Lived-run tables "b1" same_order leading begun_run begun-Lived leading_is_exact
      (refl, (tt, (tt, tt)))

abbrev closed_tables : Run ℕ
closed_tables =
    closed_run tables clock "b1" same_order told_to_close 8 (delivered_as "e3" ∷ []) by_signal

closed_own :
    (row : BillRow ℕ)
    → find_bill "b1" closed_tables.world.db.bills ≡ some row
    → row.account_id ≡ "acct-alpha"
unfolding run_events start_run step execute_activity create_bill_activity append_line_item_activity
    append_event insert_bill insert_line_item insert_event add_to_total on_update on_persisted
    close_bill_activity close_bill_row on_handlers_finished on_close_persisted finalized close_input
closed_own row h = ap (λ (r : BillRow ℕ). r.account_id) (sym (some-injective _ _ h))

close_bill-IsInvoice_example :
    (v : CloseBillResponse) × (close_bill tables clock closing_workflow all_answered
        told_to_close.bill.id "acct-alpha" told_to_close.world.db closed_tables.world.db
      ≡ ok v)
    × (close_bill tables clock without_workflow all_answered told_to_close.bill.id "acct-alpha"
          closed_tables.world.db closed_tables.world.db
        ≡ ok v)
    × IsInvoice tables clock "b1" closed_tables.world.db 8 by_signal summary v
unfolding run_events start_run step execute_activity create_bill_activity append_line_item_activity
    append_event insert_bill insert_line_item insert_event add_to_total on_update on_persisted
    close_bill_activity close_bill_row on_handlers_finished on_close_persisted finalized close_input
    assert_owns_bill load_bill_summary query_bill_state
close_bill-IsInvoice_example =
    close_bill-IsInvoice tables clock "b1" same_order told_to_close 8 (delivered_as "e3" ∷ [])
      by_signal summary closing_workflow without_workflow "acct-alpha" told_to_close.world.db refl
      (λ e. cc) refl same_ids closing-Lived refl refl refl refl refl refl closed_own

-- The tables hold the fee already, and the run has not seen its id.
abbrev second_run : Run ℕ
second_run = record after { seen = [] }

reused_id_counted_example :
    let last =
      run_events tables same_order second_run
        (update 5 fee ∷ persisted 0 (delivered_as "e3" ∷ []) ∷ []) in
    (last.world.db ≡ second_run.world.db)
    × (last.bill.total_amount ≡ second_run.bill.total_amount + 15)
    × (last.bill.item_count ≡ suc second_run.bill.item_count)
unfolding run_events start_run step execute_activity create_bill_activity append_line_item_activity
    append_event insert_bill insert_line_item insert_event add_to_total on_update on_persisted
    validate
reused_id_counted_example =
    reused_id_counted tables same_order second_run fee 5 (delivered_as "e3" ∷ []) refl refl refl
      refl ("i1", refl, refl) refl
