-- ===== src/Endpoints/Mapping.antt =====
-- How the verdicts of the workflow reach the caller of AddLineItem.
use redesigned_disco.Prelude.{
  not, ◌==◌, if◌then◌else◌, Bool-cases, inl, inr, sym, ◌∙◌, true, String, ◌≡◌, refl, ◌≢◌, ◌⊎◌, none,
  some, arith, eq_iff,
}
use redesigned_disco.Errs.{Code, ok, not_found, failed_precondition, invalid_argument}
use redesigned_disco.Money.{Decimal}
use mathlib.Core.Path.{subst}
use mathlib.Core.Option.{some-injective}
use redesigned_disco.Store.{DbError}
use redesigned_disco.Models.{Bill, AddLineItemInput}
use redesigned_disco.Views.{parse_amount}
use redesigned_disco.Views.Laws.{parse_amount-accepts}
use redesigned_disco.Workflow.{
  bill_not_found_err_type, currency_mismatch_err_type, HandlerError, application_error, plain_error,
  bill_not_found, currency_mismatch, amount_not_positive, description_required, persist_failed,
  validate,
}
use redesigned_disco.Endpoints.Errors.{UpdateError, application, classify_update_error}
use redesigned_disco.Endpoints.AddItem.{AddLineItemRequest, update_input}

-- What the service relies on of Temporal's failure converter: an application error reaches the
-- client with the message and type that the workflow gave it, and a Go error of `fmt.Errorf` as an
-- application error under the name of its Go type, which is none of the workflow's own types.
pub record Delivery : Type 0 where
  pub deliver : HandlerError → UpdateError
  pub plain_type : String
  pub wrapped_type : String
  pub wrapped_message : DbError → String
  pub deliver-application :
      (message kind : String) → deliver (application_error message kind) ≡ application kind message
  pub deliver-plain :
      (message : String) → deliver (plain_error message) ≡ application plain_type message
  pub deliver-wrapped :
      (e : DbError) → deliver (persist_failed e) ≡ application wrapped_type (wrapped_message e)
  pub plain_is_other :
      (plain_type ≢ bill_not_found_err_type) × (plain_type ≢ currency_mismatch_err_type)
  pub wrapped_is_other :
      (wrapped_type ≢ bill_not_found_err_type) × (wrapped_type ≢ currency_mismatch_err_type)

other_type :
    (kind message : String)
    → (kind ≢ bill_not_found_err_type) × (kind ≢ currency_mismatch_err_type)
    → (classify_update_error (application kind message)).0.code ≡ invalid_argument
unfolding classify_update_error
other_type kind message (h, k) =
    ground (arith, eq_iff kind bill_not_found_err_type, eq_iff kind currency_mismatch_err_type)

module _ {D : Type 0} (d : Decimal D) (bill : Bill D) (request : AddLineItemInput D) where
  -- An error that the caller of an update gets: the validator's, or that of the activity.
  abbrev pub IsRefusal : HandlerError → Type 0
  IsRefusal e =
      (validate d bill request ≡ some e)
      ⊎ ((validate d bill request ≡ none) × ((x : DbError) × (e ≡ persist_failed x)))

  abbrev pub refusal_code : Code
  refusal_code =
      if not (request.caller_account_id == bill.account_id)
      then not_found
      else if not (request.currency == bill.currency)
      then failed_precondition
      else invalid_argument

  module _ (t : Delivery) where
    classify-absent : (classify_update_error (t.deliver bill_not_found)).0.code ≡ not_found
    unfolding classify_update_error
    classify-absent = rw (t.deliver-application _ _) refl

    classify-mismatch :
        (a b : String)
        → (classify_update_error (t.deliver (currency_mismatch a b))).0.code ≡ failed_precondition
    unfolding classify_update_error
    classify-mismatch a b = rw (t.deliver-application _ _) refl

    classify-plain :
        (message : String)
        → (classify_update_error (t.deliver (plain_error message))).0.code ≡ invalid_argument
    classify-plain message =
        rw (t.deliver-plain message) (other_type t.plain_type message t.plain_is_other)

    classify-wrapped :
        (x : DbError)
        → (classify_update_error (t.deliver (persist_failed x))).0.code ≡ invalid_argument
    classify-wrapped x =
        rw (t.deliver-wrapped x)
          (other_type t.wrapped_type (t.wrapped_message x) t.wrapped_is_other)

    classified :
        (e f : HandlerError) (c : Code)
        → some f ≡ some e
        → (classify_update_error (t.deliver f)).0.code ≡ c
        → (classify_update_error (t.deliver e)).0.code ≡ c
    classified e f c same h =
        subst (λ x. (classify_update_error (t.deliver x)).0.code ≡ c) (some-injective _ _ same) h

    plain-code :
        (e : HandlerError)
        → ((request.caller_account_id == bill.account_id) ≡ true)
          × ((request.currency == bill.currency) ≡ true)
        → validate d bill request ≡ some e
        → (classify_update_error (t.deliver e)).0.code ≡ invalid_argument
    unfolding validate
    plain-code e (own, same) h = elim (Bool-cases (d.is_positive request.amount)) [
      | inr nonpositive ↦
          classified e amount_not_positive _ (sym (rw (own, same, nonpositive) refl) ∙ h)
            (classify-plain _)
      | inl positive ↦ elim (Bool-cases (request.description == "")) [
        | inl empty ↦
            classified e description_required _ (sym (rw (own, same, positive, empty) refl) ∙ h)
              (classify-plain _)
        | inr described ↦ absurd (ground (arith, own, same, positive, described, h))
      ]
    ]

    validated-code :
        (e : HandlerError)
        → validate d bill request ≡ some e
        → (classify_update_error (t.deliver e)).0.code ≡ refusal_code
    unfolding validate
    validated-code e h = elim (Bool-cases (request.caller_account_id == bill.account_id)) [
      | inr foreign ↦ rw foreign (classified e _ _ (sym (rw foreign refl) ∙ h) classify-absent)
      | inl own ↦ elim (Bool-cases (request.currency == bill.currency)) [
        | inr other ↦
            rw (own, other)
              (classified e _ _ (sym (rw (own, other) refl) ∙ h)
                (classify-mismatch bill.currency request.currency))
        | inl same ↦ rw (own, same) (plain-code e (own, same) h)
      ]
    ]

    accepted-code : validate d bill request ≡ none → refusal_code ≡ invalid_argument
    unfolding validate
    accepted-code h = ground arith

    -- Let Temporal deliver errors as documented: an application error with its message and type, and
    -- a plain Go error under the name of its Go type. Whatever error the caller of an update gets, the
    -- validator's or, of an item that the validator accepts, the activity's, AddLineItem's mapping of it
    -- is NotFound if the bill is not the caller's, else FailedPrecondition if the item is in another
    -- currency, and InvalidArgument for all else, an item that could not be persisted included.
    pub classify-deliver :
        (e : HandlerError)
        → IsRefusal e
        → (classify_update_error (t.deliver e)).0.code ≡ refusal_code
    classify-deliver e (inl h) = validated-code e h
    classify-deliver e (inr (h, (x, same))) = rw (same, accepted-code h) (classify-wrapped x)

module _ {D : Type 0} (d : Decimal D) where
  -- An update that the endpoint sends, after its own checks of the description and the amount, is
  -- rejected by the workflow's validator for its owner or its currency only.
  pub validate-update_input :
      (bill : Bill D) (req : AddLineItemRequest) (fresh caller : String) (amount : D)
      → req.description ≢ ""
      → parse_amount d req.amount ≡ ok amount
      → (validate d bill (update_input d fresh caller req amount) ≡ none)
        ⊎ (validate d bill (update_input d fresh caller req amount) ≡ some bill_not_found)
        ⊎ (validate d bill (update_input d fresh caller req amount)
            ≡ some (currency_mismatch bill.currency req.currency))
  unfolding validate
  validate-update_input bill req fresh caller amount described parsed =
      ground (arith, parse_amount-accepts d req.amount amount, eq_iff req.description "")
