-- ===== src/Endpoints/Create.antt =====
-- bill/endpoints.go: `CreateBill`.
use redesigned_disco.Prelude.{String, not, ◌==◌, leb, Option, none, some, [], concat, if◌then◌else◌}
use redesigned_disco.Errs.{ApiError, Result, ok, err, api_error, invalid_argument, unavailable}
use redesigned_disco.Money.{Decimal, Postgres}
use redesigned_disco.Models.{Time, Currency, BillStatus, open_bill, Bill, BillWorkflowInput}
use redesigned_disco.Store.{Db}
use redesigned_disco.Store.Reads.{Reading}
use redesigned_disco.Registry.{Registry, valid}
use redesigned_disco.Endpoints.Errors.{Started, started, already_started, start_failed, workflow_id}
use redesigned_disco.Endpoints.Loading.{TemporalClient, load_bill_summary}

pub record CreateBillRequest : Type 0 where
  pub currency : String
  pub period_start : Option Time
  pub period_end : Option Time
  pub idempotency_key : String

pub record CreateBillResponse : Type 0 where
  pub bill_id : String
  pub status : BillStatus
  pub currency : Currency
  pub period_start : Option Time
  pub period_end : Option Time

-- `validatePeriod`; `none` is nil. `end.After(start)` is `start < end`.
unfoldable pub validate_period : Option Time → Option Time → Option ApiError
validate_period (some start) (some end) =
    if leb end start
    then some (record { code = invalid_argument; message = "periodEnd must be after periodStart" })
    else none
validate_period start end = none

-- The UUIDs of `github.com/google/uuid`: a fresh one, and the one derived from a name.
unfoldable pub new_bill_id : String → (String → String) → String → String → String
new_bill_id fresh derived account_id key =
    if key == "" then fresh else derived (concat (concat account_id ":") key)

module _ {D : Type 0} where
  -- The input of the workflow that a request starts.
  abbrev pub workflow_input : String → String → CreateBillRequest → BillWorkflowInput D
  workflow_input bill_id account_id req = record {
    bill_id = bill_id;
    account_id = account_id;
    currency = req.currency;
    period_start = req.period_start;
    period_end = req.period_end;
    snapshot = none;
    seen_item_ids = [];
  }

-- The response that repeats the request.
abbrev pub echoed : String → CreateBillRequest → CreateBillResponse
echoed bill_id req = record {
  bill_id = bill_id;
  status = open_bill;
  currency = req.currency;
  period_start = req.period_start;
  period_end = req.period_end;
}

module _ {D : Type 0} {d : Decimal D} (pg : Postgres D d) where
  abbrev pub reported : String → CreateBillRequest → Result ApiError (Bill D) → CreateBillResponse
  reported bill_id req (ok state) = record {
    bill_id = state.id;
    status = state.status;
    currency = state.currency;
    period_start = state.period_start;
    period_end = state.period_end;
  }
  reported bill_id req (err e) = echoed bill_id req

  -- `createBillReplayResponse`
  unfoldable pub create_bill_replay_response :
      TemporalClient D → Reading → Db D → String → CreateBillRequest → CreateBillResponse
  create_bill_replay_response t reading db bill_id req =
      reported bill_id req (load_bill_summary pg t reading bill_id db)

  -- By Temporal's defaults, which `CreateBill` keeps, the start of a workflow that runs already is
  -- answered without an error, `started`; the branch for `already_started` is translated as written.
  abbrev pub start_outcome :
      TemporalClient D
      → Reading
      → Db D
      → String
      → CreateBillRequest
      → Started
      → Result ApiError CreateBillResponse
  start_outcome t reading db bill_id req started = ok (echoed bill_id req)
  start_outcome t reading db bill_id req already_started =
      ok (create_bill_replay_response t reading db bill_id req)
  start_outcome t reading db bill_id req (start_failed why) =
      api_error unavailable (concat "failed to start bill workflow: " why)

  abbrev pub unless_bad_period :
      Option ApiError → Result ApiError CreateBillResponse → Result ApiError CreateBillResponse
  unless_bad_period (some e) r = err e
  unless_bad_period none r = r

  -- `CreateBill`; `bill_id` is what `newBillID` gives for the caller and the request's key.
  unfoldable pub create_bill :
      TemporalClient D
      → Registry
      → Reading
      → Db D
      → String
      → (String → String)
      → String
      → CreateBillRequest
      → Result ApiError CreateBillResponse
  unfolding valid validate_period new_bill_id create_bill_replay_response
  create_bill t currencies reading db fresh derived account_id req =
      if not (valid currencies req.currency)
      then api_error invalid_argument (concat "invalid currency: " req.currency)
      else unless_bad_period (validate_period req.period_start req.period_end) (
          let bill_id = new_bill_id fresh derived account_id req.idempotency_key in
          start_outcome t reading db bill_id req
            (t.start (workflow_id bill_id) (workflow_input bill_id account_id req)))
