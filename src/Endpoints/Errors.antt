-- ===== src/Endpoints/Errors.antt =====
-- bill/endpoints.go: the errors of Temporal, and the API errors that they become.
use redesigned_disco.Prelude.{String, ◌==◌, List, [], ◌∷◌, concat, if◌then◌else◌}
use redesigned_disco.Errs.{
  ApiError, invalid_argument, not_found, failed_precondition, unavailable, internal, canceled,
  deadline_exceeded,
}
use redesigned_disco.Activities.{
  Metric, line_item_validator_rejection_total, line_items_added_total, rejected,
}
use redesigned_disco.Workflow.{bill_not_found_err_type, currency_mismatch_err_type}

-- `temporalOp`
pub data TemporalOp : Type 0 where
  add_item close_bill_op : TemporalOp

abbrev pub op_text : TemporalOp → String
op_text add_item = "add item"
op_text close_bill_op = "close bill"

-- The errors of a Temporal call that the code tells apart.
pub data RpcError : Type 0 where
  workflow_not_found request_canceled deadline_passed other_rpc : RpcError

-- The errors of an update's outcome that the code tells apart: an application error with its type
-- and message, and so on.
pub data UpdateError : Type 0 where
  application : String → String → UpdateError
  timed_out update_canceled other_update : UpdateError

abbrev pub cannot : TemporalOp → String → String
cannot op why = concat (concat "cannot " (op_text op)) why

unfoldable pub map_temporal_rpc_error : RpcError → TemporalOp → ApiError
map_temporal_rpc_error workflow_not_found op = record {
  code = not_found;
  message = cannot op ": bill not found or already closed";
}
map_temporal_rpc_error request_canceled op = record {
  code = canceled;
  message = cannot op ": request canceled";
}
map_temporal_rpc_error deadline_passed op = record {
  code = deadline_exceeded;
  message = cannot op ": deadline exceeded";
}
map_temporal_rpc_error other_rpc op = record {
  code = unavailable;
  message = cannot op ": service unavailable";
}

-- The error, and the counters that are incremented.
unfoldable pub classify_update_error : UpdateError → ApiError × List Metric
classify_update_error (application kind message) = (
  if kind == bill_not_found_err_type
      then record { code = not_found; message = message }
      else if kind == currency_mismatch_err_type
      then record { code = failed_precondition; message = message }
      else record { code = invalid_argument; message = message },
  line_item_validator_rejection_total (if kind == "" then "InvalidInput" else kind)
      ∷ line_items_added_total rejected
      ∷ [],
)
classify_update_error timed_out =
    (record { code = deadline_exceeded; message = "add item timed out" }, [])
classify_update_error update_canceled =
    (record { code = canceled; message = "add item canceled" }, [])
classify_update_error other_update =
    (record { code = internal; message = "failed to add item" }, [])

-- What `ExecuteWorkflow` answers: started, already started, or failed with a text.
pub data Started : Type 0 where
  started already_started : Started
  start_failed : String → Started

abbrev pub workflow_id : String → String
workflow_id bill_id = concat "bill-" bill_id
