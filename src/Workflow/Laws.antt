-- ===== src/Workflow/Laws.antt =====
-- What the functions of the workflow do one by one: the validator's verdicts, and what one run hands
-- to the next.
use redesigned_disco.Prelude.{
  String, true, ◌≡◌, contains, none, some, List, arith, eq_iff, ◌↔◌, ◌≢◌,
}
use redesigned_disco.Money.{Decimal}
use redesigned_disco.Models.{Time, Bill, BillWorkflowInput, AddLineItemInput, unset}
use redesigned_disco.Workflow.{
  bill_not_found, currency_mismatch, initial_bill, initial_seen, validate, continue_as_new,
}

-- What the validator is to accept: the owner's items, in the bill's currency, positive, described.
pub record IsAcceptable {D : Type 0} (d : Decimal D) (bill : Bill D) (request : AddLineItemInput D)
    : Type 0 where
  pub from_owner : request.caller_account_id ≡ bill.account_id
  pub in_currency : request.currency ≡ bill.currency
  pub positive : d.is_positive request.amount ≡ true
  pub described : request.description ≢ ""

module _ {D : Type 0} (d : Decimal D) where
  pub validate-IsAcceptable :
      (bill : Bill D) (request : AddLineItemInput D)
      → validate d bill request ≡ none
      → IsAcceptable d bill request
  unfolding validate
  validate-IsAcceptable bill request h = ground (
    arith,
    eq_iff request.caller_account_id bill.account_id,
    eq_iff request.currency bill.currency,
    eq_iff request.description "",
  )

  IsAcceptable-validate :
      (bill : Bill D) (request : AddLineItemInput D)
      → IsAcceptable d bill request
      → validate d bill request ≡ none
  unfolding validate
  IsAcceptable-validate bill request h = ground (
    arith,
    eq_iff request.caller_account_id bill.account_id,
    eq_iff request.currency bill.currency,
    eq_iff request.description "",
  )

  verdicts_differ : (a b : String) → bill_not_found ≢ currency_mismatch a b
  verdicts_differ a b h = cc

  -- The validator accepts exactly the acceptable items; a caller who does not own the bill is told
  -- that there is none, whatever else is wrong with the item; and a currency mismatch is reported
  -- exactly to the owner of a bill in another currency.
  pub validate_verdicts :
      (bill : Bill D) (request : AddLineItemInput D)
      → ((validate d bill request ≡ none) ↔ IsAcceptable d bill request)
        × ((validate d bill request ≡ some bill_not_found)
            ↔ (request.caller_account_id ≢ bill.account_id))
        × ((validate d bill request ≡ some (currency_mismatch bill.currency request.currency))
            ↔ ((request.caller_account_id ≡ bill.account_id) × (request.currency ≢ bill.currency)))
  unfolding validate
  validate_verdicts bill request = (
    (validate-IsAcceptable bill request, IsAcceptable-validate bill request),
    (
      ground (
        arith,
        eq_iff request.caller_account_id bill.account_id,
        verdicts_differ bill.currency request.currency,
      ),
      ground (
        arith,
        eq_iff request.caller_account_id bill.account_id,
        verdicts_differ bill.currency request.currency,
      ),
    ),
    (
      ground (
        arith,
        eq_iff request.caller_account_id bill.account_id,
        verdicts_differ bill.currency request.currency,
        eq_iff request.currency bill.currency,
      ),
      ground (
        arith,
        eq_iff request.caller_account_id bill.account_id,
        verdicts_differ bill.currency request.currency,
        eq_iff request.currency bill.currency,
      ),
    ),
  )

-- The summary of a bill that is still open: nothing about its closing, no items in memory.
pub record IsSummary {D : Type 0} (bill : Bill D) : Type 0 where
  pub not_closed : bill.closed_at ≡ none
  pub no_reason : bill.close_reason ≡ unset
  pub no_items : bill.line_items ≡ none

module _ {D : Type 0} (d : Decimal D) where
  -- A run that continues as new with the summary of an open bill (no closing instant or reason, no
  -- items in memory) hands the bill, total and count included, and its set of item ids to the next
  -- run unchanged, in whatever order the ids are listed, as long as exactly they are.
  pub continue_as_new-round_trip :
      (order : List String → List String)
      → ((ids : List String) (k : String) → contains (order ids) k ≡ contains ids k)
      → (now : Time) (input : BillWorkflowInput D) (bill : Bill D) (seen : List String)
      → IsSummary bill
      → let next = continue_as_new order input bill seen in
        (initial_bill d now next ≡ bill)
        × ((k : String) → contains (initial_seen next) k ≡ contains seen k)
  unfolding continue_as_new initial_bill initial_seen
  continue_as_new-round_trip order same now input bill seen h = (ground arith, λ k. same seen k)
