-- ===== src/Endpoints/Access.antt =====
-- AddLineItem on its whole way: the auth handler, the middleware, the endpoint's update and the
-- workflow's validator.
use redesigned_disco.Prelude.{String, ◌≡◌, refl, sym, ◌∙◌, ◌⊎◌, inl, inr, Option, some}
use redesigned_disco.Errs.{Result, ok}
use redesigned_disco.Money.{Decimal}
use redesigned_disco.Models.{Time}
use redesigned_disco.Store.{Client, ClientStatus, active, suspended, DbError}
use redesigned_disco.Clients.{Cached}
use redesigned_disco.Auth.{
  AuthData, Endpoint, returned, auth_handler, trim_space, caller_account_id, require_active_caller,
  assert_active_caller,
}
use redesigned_disco.Auth.Identity.{Source, auth_handler-accepts}
use redesigned_disco.Workflow.Laws.{validate-IsAcceptable}
use redesigned_disco.Workflow.Run.{Run, Reply, on_update}
use redesigned_disco.Workflow.Run.Picking.{unchanged_or_valid}
use redesigned_disco.Endpoints.AddItem.{AddLineItemRequest, update_input}

module _ {D : Type 0} (d : Decimal D) (now : Time) where
  -- The endpoint's update, as it reaches a run of the bill's workflow.
  abbrev pub sends : String → AddLineItemRequest → D → Option AuthData → Endpoint (Run D) (Reply D)
  sends fresh req amount caller r =
      let (after, reply) =
        on_update d now (update_input d fresh (caller_account_id caller) req amount) r in
      (ok reply, after)

  guarded :
      (identity : AuthData) (s : ClientStatus) (next : Endpoint (Run D) (Reply D)) (r : Run D)
      → identity.status ≡ s
      → ((require_active_caller (some identity) next r).1 ≡ r)
        ⊎ ((identity.status ≡ active)
            × ((require_active_caller (some identity) next r).1 ≡ (next r).1))
  unfolding require_active_caller assert_active_caller
  guarded identity suspended next r e = inl (rw e refl)
  guarded identity active next r e = inr (e, rw e refl)

  -- Who adds to a bill: where an AddLineItem of an authenticated caller, behind the middleware, changes
  -- anything in a run of the bill's workflow, the trimmed header is the account that owns the bill,
  -- and the client that the cache held or the database answered for it is active.
  pub sends-owner :
      (header : String) (first second : Cached) (load : String → Result DbError Client)
      (identity : AuthData) (fresh : String) (req : AddLineItemRequest) (amount : D) (r : Run D)
      → (auth_handler header first second load).0 ≡ returned (ok identity)
      → let next = sends fresh req amount (some identity) in
        ((require_active_caller (some identity) next r).1 ≡ r)
        ⊎ ((trim_space header ≡ r.bill.account_id)
            × ((c : Client) × Source first second (load (trim_space header)) c
                × (c.status ≡ active)))
  sends-owner header first second load identity fresh req amount r accepted =
      let next = sends fresh req amount (some identity) in
      let request = update_input d fresh identity.account_id req amount in
      let (_, account, (c, source, status, _)) =
        auth_handler-accepts header first second load identity accepted in
      elim (guarded identity identity.status next r refl) [
        | inl same ↦ inl same
        | inr (is_active, reached) ↦ elim (unchanged_or_valid d now r request) [
          | inl same ↦ inl (reached ∙ same)
          | inr valid ↦ inr (
            sym account ∙ (validate-IsAcceptable d r.bill request valid).from_owner,
            (c, source, sym status ∙ is_active),
          )
        ]
      ]
