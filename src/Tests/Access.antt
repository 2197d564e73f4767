-- ===== src/Tests/Access.antt =====
-- The theorems about identities, currencies and amounts at concrete values.
use redesigned_disco.Tests.Runs.{begun_run}
use redesigned_disco.Auth.Identity.{
  IsUnknown, IsUnresolved, Source, auth_handler-panics, auth_handler-rejects,
  require_active_caller-guards,
}
use redesigned_disco.Auth.{
  Endpoint, AuthData, returned, panicked, auth_handler, trim_space, require_active_caller,
}
use redesigned_disco.Endpoints.Access.{sends, sends-owner}
use redesigned_disco.Endpoints.AddItem.{AddLineItemRequest}
use redesigned_disco.Workflow.Run.{Run, Reply}
use redesigned_disco.Models.{Currency}
use redesigned_disco.Store.Statements.{
  insert_bill, insert_line_item, insert_event, add_to_total, close_bill_row,
}
use redesigned_disco.Tests.Fixtures.{tables, units, open_bill_of, empty_world, alpha, usd}
use redesigned_disco.Tests.Storage.{life}
use redesigned_disco.Registry.ForeignKeys.{succeeds, valid-has_currency}
use redesigned_disco.Activities.{
  new_bill_row, create_bill_activity, append_line_item_activity, close_bill_activity, append_event,
}
use redesigned_disco.Store.{
  BillRow, has_currency, Client, DbError, active, suspended, no_rows, connection,
}
use redesigned_disco.Activities.Calls.{perform_all, perform}
use redesigned_disco.Prelude.{
  ℕ, suc, String, ◌≡◌, refl, ◌≢◌, ◌⊎◌, true, false, none, some, List, All, [], ◌∷◌, ◌↔◌,
}
use redesigned_disco.Errs.{
  ApiError, Result, ok, err, unauthenticated, unavailable, permission_denied,
}
use redesigned_disco.Clients.{miss, hit_nil, lookup_client, ClientCache, invalidate_client}
use redesigned_disco.Clients.Coherence.{
  IsCoherent, History, Told, looked_up, cold_cache, knows_unknown, History-invalidate_client,
  lookup_client-Told, unknown_id_race,
}
use redesigned_disco.Registry.{valid, get_currencies, load_currencies_from_db}
use redesigned_disco.Service.{Service, init_service, shutdown}
use redesigned_disco.Service.Lifecycle.{
  nothing, act_on, held_after, kept_registry, init_service-releases,
}

abbrev alpha_identity : AuthData
alpha_identity = record { account_id = "acct-alpha"; status = active; name = "Alpha" }

abbrev found : String → Result DbError Client
found id = ok alpha

abbrev unknown : String → Result DbError Client
unknown id = err no_rows

alpha_accepted : (auth_handler " acct-alpha " miss miss found).0 ≡ returned (ok alpha_identity)
unfolding auth_handler trim_space lookup_client
alpha_accepted = refl

auth_handler-panics_example :
    ((auth_handler "ghost" miss hit_nil unknown).0 ≡ panicked)
    ↔ ((trim_space "ghost" ≢ "") × (miss ≡ miss) × (hit_nil ≡ hit_nil))
auth_handler-panics_example = auth_handler-panics "ghost" miss hit_nil unknown

abbrev unreachable : String → Result DbError Client
unreachable id = err connection

abbrev unresolved : ApiError
unresolved = record { code = unavailable; message = "failed to resolve caller identity" }

auth_handler-rejects_example :
    ((auth_handler "ghost" miss miss unreachable).0 ≡ returned (err unresolved)) ↔ (
      ((trim_space "ghost" ≡ "")
        × (unresolved
            ≡ record { code = unauthenticated; message = "X-Account-Id header is required" }))
      ⊎ ((trim_space "ghost" ≢ "")
          × (unresolved ≡ record { code = unauthenticated; message = "unknown account" })
          × IsUnknown miss miss (unreachable (trim_space "ghost")))
      ⊎ ((trim_space "ghost" ≢ "")
          × (unresolved ≡ unresolved)
          × IsUnresolved miss miss (unreachable (trim_space "ghost"))))
auth_handler-rejects_example = auth_handler-rejects "ghost" miss miss unreachable unresolved

abbrev suspended_identity : AuthData
suspended_identity = record alpha_identity { status = suspended }

abbrev counting : ℕ → Result ApiError ℕ × ℕ
counting n = (ok n, suc n)

require_active_caller-guards_example :
    ((a : AuthData) × (some suspended_identity ≡ some a)
      × (a.status ≡ active)
      × (require_active_caller (some suspended_identity) counting 4 ≡ counting 4))
    ⊎ ((e : ApiError) × (require_active_caller (some suspended_identity) counting 4 ≡ (err e, 4))
        × ((some suspended_identity ≡ none) × (e.code ≡ unauthenticated)
            ⊎ ((a : AuthData) × (some suspended_identity ≡ some a)
                × (a.status ≡ suspended)
                × (e.code ≡ permission_denied))))
require_active_caller-guards_example =
    require_active_caller-guards (some suspended_identity) counting 4

-- A registry of one row knows its code, and no other.
one_row_is_known :
    (valid (get_currencies none none (ok (usd ∷ []))).0 "USD" ≡ true)
    × (valid (get_currencies none none (ok (usd ∷ []))).0 "EUR" ≡ false)
unfolding valid get_currencies
one_row_is_known = (refl, refl)

abbrev new_row : BillRow ℕ
new_row = new_bill_row units (record (open_bill_of 0 0) { id = "b2"; currency = "EUR" })

-- After the life of a first bill.
valid-has_currency_example :
    let later = (perform_all tables life empty_world).db in
    let registry = (get_currencies none none (ok empty_world.db.currencies)).0 in
    ((c : Currency) → valid registry c ≡ has_currency c later.currencies)
    × (succeeds (insert_bill tables new_row later) ≡ valid registry new_row.currency)
unfolding perform_all perform create_bill_activity append_line_item_activity close_bill_activity
    append_event insert_bill insert_line_item insert_event add_to_total close_bill_row
valid-has_currency_example = valid-has_currency tables life empty_world new_row "b2" refl refl refl

init_service-releases_example :
    let (result, actions) = init_service "" true true (ok (usd ∷ [])) in
    let load = load_currencies_from_db (ok (usd ∷ [])) in
    (act_on (some nothing) actions ≡ some (held_after result load))
    × ((s : Service)
        → result ≡ ok s
        → act_on (some (held_after result load)) (shutdown s)
          ≡ some (record nothing { registry = kept_registry result load }))
init_service-releases_example = init_service-releases "" true true (ok (usd ∷ []))

abbrev nobody : String
nobody = "acct-nobody"

abbrev caches : List ClientCache
caches =
    invalidate_client "acct-beta" (knows_unknown nobody) ∷ knows_unknown nobody ∷ cold_cache ∷ []

caches_happen : History empty_world.db caches
caches_happen =
    History-invalidate_client empty_world.db "acct-beta" (knows_unknown nobody) (cold_cache ∷ [])
      (unknown_id_race empty_world.db nobody true refl).0

lookup_client-Told_example :
    All (IsCoherent empty_world.db) caches
    × Told empty_world.db true "acct-alpha" miss miss
        (looked_up empty_world.db true "acct-alpha" miss miss).0
lookup_client-Told_example =
    lookup_client-Told empty_world.db caches 2 2 (cold_cache) (cold_cache) true "acct-alpha"
      caches_happen refl refl

abbrev item_request : AddLineItemRequest
item_request = record {
  idempotency_key = "i1";
  description = "Monthly fee";
  amount = "|||||||||||||||";
  currency = "USD";
}

abbrev sent : Endpoint (Run ℕ) (Reply ℕ)
sent = sends units 2 "fresh" item_request 15 (some alpha_identity)

sends-owner_example :
    ((require_active_caller (some alpha_identity) sent begun_run).1 ≡ begun_run)
    ⊎ ((trim_space " acct-alpha " ≡ begun_run.bill.account_id)
        × ((c : Client) × Source miss miss (found (trim_space " acct-alpha ")) c
            × (c.status ≡ active)))
sends-owner_example =
    sends-owner units 2 " acct-alpha " miss miss found alpha_identity "fresh" item_request 15
      begun_run alpha_accepted
