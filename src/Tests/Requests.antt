-- ===== src/Tests/Requests.antt =====
-- The theorems about requests at concrete requests.
use redesigned_disco.Prelude.{
  inl, arith, Option, ◌≢◌, ℕ, length, String, ◌≡◌, refl, none, some, [], ◌∷◌,
}
use redesigned_disco.Errs.{Result, ok, err}
use redesigned_disco.Models.{AddLineItemInput, Time, Bill, open_bill, closed_bill, by_signal}
use redesigned_disco.Store.{Db, BillRow}
use redesigned_disco.Store.Reads.{answered, all_answered}
use redesigned_disco.Activities.{create_bill_activity, append_event, append_line_item_activity}
use redesigned_disco.Store.Statements.{insert_bill, insert_event, insert_line_item, add_to_total}
use redesigned_disco.Registry.{Registry, valid}
use redesigned_disco.Views.{BillView, to_line_item_views, to_bill_view}
use redesigned_disco.Workflow.{
  HandlerError, application_error, plain_error, currency_mismatch, persist_failed, validate,
  bill_not_found_err_type, currency_mismatch_err_type,
}
use redesigned_disco.Endpoints.Errors.{
  application, UpdateError, RpcError, workflow_not_found, other_rpc, started, already_started,
  classify_update_error,
}
use redesigned_disco.Endpoints.Loading.{
  TemporalClient, query_bill_state, load_bill_summary, items_of, scan_bill_row,
  get_bill_row_from_db, fetch_line_items,
}
use redesigned_disco.Endpoints.Create.{
  CreateBillResponse, new_bill_id, create_bill_replay_response, CreateBillRequest, create_bill,
  validate_period,
}
use redesigned_disco.Endpoints.AddItem.{AddLineItemRequest}
use redesigned_disco.Endpoints.Read.{get_bill, close_bill}
use redesigned_disco.Endpoints.Ownership.{foreign_bill_looks_absent, get_bill-closed_count}
use redesigned_disco.Endpoints.Mapping.{refusal_code, Delivery, classify-deliver}
use redesigned_disco.Endpoints.Retries.{Serves, create_bill-same_bill}
use redesigned_disco.Tests.Fixtures.{
  fee, units, tables, healthy, healthy_as, usd, empty_world, open_bill_of, fee_row,
}

-- A service that holds the bill of the fixtures, and one that holds none.
abbrev pub serving : Result RpcError (Option (Bill ℕ)) → TemporalClient ℕ
serving answer = record {
  query = λ id. answer;
  start = λ id input. already_started;
  update = λ id input. err other_rpc;
  signal_close = λ id. err workflow_not_found;
  await_result = λ id. err other_rpc;
}

abbrev pub with_bill : TemporalClient ℕ
with_bill = serving (ok (some (open_bill_of 15 1)))

abbrev pub without_workflow : TemporalClient ℕ
without_workflow = serving (err workflow_not_found)

abbrev pub clock : Time → String
clock t = "2026-01-01T00:00:00Z"

-- The tables after the bill is opened and one fee is added.
abbrev stored : Db ℕ
stored =
    (append_line_item_activity tables (healthy_as "e2") fee_row
      (create_bill_activity tables healthy (open_bill_of 0 0) empty_world).1).1.db

abbrev keyed_request : CreateBillRequest
keyed_request = record {
  currency = "USD";
  period_start = some 1;
  period_end = some 9;
  idempotency_key = "k1";
}

abbrev pub registry : Registry
registry = ("USD", usd) ∷ []

abbrev derive : String → String
derive name = "b1"

-- The workflow is not there yet, and is there.
abbrev fresh_service : TemporalClient ℕ
fresh_service = record without_workflow { start = λ id input. started }

abbrev other_request : CreateBillRequest
other_request = record keyed_request { period_end = none }

abbrev first_response : CreateBillResponse
first_response = record {
  bill_id = "b1";
  status = open_bill;
  currency = "USD";
  period_start = some 1;
  period_end = some 9;
}

abbrev second_response : CreateBillResponse
second_response = record first_response { period_start = none; period_end = none }

first-Serves : Serves fresh_service "b1"
first-Serves b h = cc

second-Serves : Serves with_bill "b1"
second-Serves b h = ground arith

create_bill-same_bill_example :
    (first_response.bill_id ≡ "b1") × (second_response.bill_id ≡ first_response.bill_id)
unfolding create_bill valid validate_period new_bill_id create_bill_replay_response
    load_bill_summary query_bill_state
create_bill-same_bill_example =
    create_bill-same_bill tables derive "acct-alpha" "k1" (λ e. cc) fresh_service with_bill registry
      registry answered answered empty_world.db stored "fresh1" "fresh2" keyed_request other_request
      first_response second_response refl first-Serves second-Serves refl refl refl refl

abbrev delivered_error : HandlerError → UpdateError
delivered_error (application_error message kind) = application kind message
delivered_error (plain_error message) = application "errorString" message
delivered_error (persist_failed e) = application "wrapError" "persist line item"

plain_is_other :
    ("errorString" ≢ bill_not_found_err_type) × ("errorString" ≢ currency_mismatch_err_type)
plain_is_other = (λ h. cc, λ h. cc)

wrapped_is_other :
    ("wrapError" ≢ bill_not_found_err_type) × ("wrapError" ≢ currency_mismatch_err_type)
wrapped_is_other = (λ h. cc, λ h. cc)

abbrev converter : Delivery
converter = record {
  deliver = delivered_error;
  plain_type = "errorString";
  wrapped_type = "wrapError";
  wrapped_message = λ e. "persist line item";
  deliver-application = λ message kind. refl;
  deliver-plain = λ message. refl;
  deliver-wrapped = λ e. refl;
  plain_is_other = plain_is_other;
  wrapped_is_other = wrapped_is_other;
}

-- The update of an item in another currency.
abbrev euro_update : AddLineItemInput ℕ
euro_update = record fee { currency = "EUR" }

classify-deliver_example :
    (classify_update_error (delivered_error (currency_mismatch "USD" "EUR"))).0.code
    ≡ refusal_code units (open_bill_of 15 1) euro_update
unfolding validate
classify-deliver_example =
    classify-deliver units (open_bill_of 15 1) euro_update converter (currency_mismatch "USD" "EUR")
      (inl refl)

abbrev euro_request : AddLineItemRequest
euro_request = record { idempotency_key = ""; description = "fee"; amount = "||"; currency = "EUR" }

foreign_bill_looks_absent_example :
    (get_bill tables clock with_bill all_answered "b1" "acct-beta" stored
      ≡ get_bill tables clock without_workflow all_answered "b1" "acct-beta" empty_world.db)
    × (close_bill tables clock with_bill all_answered "b1" "acct-beta" stored stored
        ≡ close_bill tables clock without_workflow all_answered "b1" "acct-beta" empty_world.db
            stored)
unfolding query_bill_state load_bill_summary
foreign_bill_looks_absent_example =
    foreign_bill_looks_absent tables clock with_bill without_workflow "b1" "acct-beta" stored stored
      empty_world.db (open_bill_of 15 1) "b1" refl (λ e. cc) refl refl refl

abbrev shown : BillView
shown =
    to_bill_view units clock
      (record (open_bill_of 15 0) { line_items = some (items_of "b1" stored.items) })

shown_by_get_bill :
    get_bill tables clock without_workflow all_answered "b1" "acct-alpha" stored ≡ ok shown
unfolding get_bill query_bill_state load_bill_summary fetch_line_items to_bill_view scan_bill_row
    get_bill_row_from_db append_line_item_activity create_bill_activity append_event insert_bill
    insert_event insert_line_item add_to_total
shown_by_get_bill = refl

abbrev closed_bill_row : BillRow ℕ
closed_bill_row = record {
  id = "b1";
  account_id = "acct-alpha";
  status = closed_bill;
  currency = "USD";
  total_amount = 15;
  created_at = 1;
  closed_at = some 9;
  period_start = none;
  period_end = none;
  close_reason = some by_signal;
}

abbrev closed_db : Db ℕ
closed_db = record stored { bills = closed_bill_row ∷ [] }

get_bill-closed_count_example :
    (v : BillView) × (get_bill tables clock without_workflow all_answered "b1" "acct-alpha"
        closed_db
      ≡ ok v)
    × (v.line_items ≡ some (to_line_item_views units clock (items_of "b1" closed_db.items)))
    × (v.item_count ≡ 0)
get_bill-closed_count_example =
    get_bill-closed_count tables clock without_workflow "b1" "acct-alpha" "b1" closed_db
      closed_bill_row refl refl refl refl

-- One item is stored, and shown beside a count of zero.
closed_items_are_shown : length (items_of "b1" closed_db.items) ≡ 1
unfolding append_line_item_activity create_bill_activity append_event insert_bill insert_event
    insert_line_item add_to_total
closed_items_are_shown = refl
