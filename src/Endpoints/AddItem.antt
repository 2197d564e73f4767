-- ===== src/Endpoints/AddItem.antt =====
-- bill/endpoints.go: `AddLineItem`.
use redesigned_disco.Prelude.{ℕ, String, not, ◌==◌, List, [], concat, if◌then◌else◌}
use redesigned_disco.Errs.{ApiError, Result, ok, err, api_error, invalid_argument}
use redesigned_disco.Money.{Decimal}
use redesigned_disco.Models.{AddLineItemInput, AddLineItemResult}
use redesigned_disco.Activities.{Metric}
use redesigned_disco.Registry.{Registry, valid}
use redesigned_disco.Views.{parse_amount}
use redesigned_disco.Endpoints.Errors.{
  RpcError, UpdateError, add_item, map_temporal_rpc_error, classify_update_error, workflow_id,
}
use redesigned_disco.Endpoints.Loading.{TemporalClient}

pub record AddLineItemRequest : Type 0 where
  pub idempotency_key : String
  pub description : String
  pub amount : String
  pub currency : String

pub record AddLineItemResponse : Type 0 where
  pub item_id : String
  pub bill_total : String
  pub item_count : ℕ

module _ {D : Type 0} (d : Decimal D) where
  -- The payload of the update; the caller's identity comes from the auth handler alone.
  abbrev pub update_input : String → String → AddLineItemRequest → D → AddLineItemInput D
  update_input fresh caller req amount = record {
    item_id = if req.idempotency_key == "" then fresh else req.idempotency_key;
    description = req.description;
    amount = amount;
    currency = req.currency;
    caller_account_id = caller;
  }

  abbrev pub classified : ApiError × List Metric → Result ApiError AddLineItemResponse × List Metric
  classified (e, metrics) = (err e, metrics)

  abbrev pub update_outcome :
      Result RpcError (Result UpdateError (AddLineItemResult D))
      → Result ApiError AddLineItemResponse × List Metric
  update_outcome (err e) = (err (map_temporal_rpc_error e add_item), [])
  update_outcome (ok (err e)) = classified (classify_update_error e)
  update_outcome (ok (ok result)) = (
    ok (record {
      item_id = result.item_id;
      bill_total = d.to_text result.bill_total;
      item_count = result.item_count;
    }),
    [],
  )

  abbrev pub with_amount :
      TemporalClient D
      → Registry
      → String
      → String
      → String
      → AddLineItemRequest
      → Result ApiError D
      → Result ApiError AddLineItemResponse × List Metric
  with_amount t currencies fresh caller id req (err e) = (err e, [])
  with_amount t currencies fresh caller id req (ok amount) =
      if not (valid currencies req.currency)
      then (api_error invalid_argument (concat "invalid currency: " req.currency), [])
      else update_outcome (t.update (workflow_id id) (update_input fresh caller req amount))

  -- `AddLineItem`, with the counters that it increments.
  unfoldable pub add_line_item :
      TemporalClient D
      → Registry
      → String
      → String
      → String
      → AddLineItemRequest
      → Result ApiError AddLineItemResponse × List Metric
  unfolding valid parse_amount map_temporal_rpc_error classify_update_error
  add_line_item t currencies fresh caller id req =
      if req.description == ""
      then (api_error invalid_argument "description is required", [])
      else with_amount t currencies fresh caller id req (parse_amount d req.amount)
