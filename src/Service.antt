-- ===== src/Service.antt =====
-- bill/service.go: the service's start and its shutdown. The Temporal client, the worker and the
-- environment are libraries: what each call gives is an argument, and the calls that are made, with
-- `setCurrencies` of bill/registry.go, are the actions that are returned, in their order.
pub mod Lifecycle
use redesigned_disco.Prelude.{String, Bool, ◌==◌, not, List, [], ◌∷◌, ◌++◌, if◌then◌else◌}
use redesigned_disco.Errs.{Result, ok, err}
use redesigned_disco.Models.{CurrencyMeta}
use redesigned_disco.Store.{DbError}
use redesigned_disco.Store.Reads.{RowsError}
use redesigned_disco.Registry.{Registry, LoadError, load_currencies_from_db}

abbrev pub task_queue : String
task_queue = "bill-task-queue"

abbrev pub default_temporal_host : String
default_temporal_host = "localhost:7233"

-- The functions that the worker runs.
pub data Registered : Type 0 where
  billing_workflow create_bill append_line_item close_bill : Registered

pub data Action : Type 0 where
  dialed : String → Action
  made_worker : String → Action
  registered : Registered → Action
  started stopped closed_client : Action
  set_currencies : Registry → Action

pub data StartError : Type 0 where
  dial_failed start_failed : StartError
  registry_failed : LoadError → StartError

-- The fields of `Service`, a client and a worker on it, by what they were made with.
pub record Service : Type 0 where
  pub temporal_client : String
  pub temporal_worker : String

-- `temporalHostPort`, on the value of the environment variable.
unfoldable pub temporal_host_port : String → String
temporal_host_port h = if not (h == "") then h else default_temporal_host

-- The registrations of the worker.
abbrev pub registrations : List Action
registrations =
    registered billing_workflow
    ∷ registered create_bill
    ∷ registered append_line_item
    ∷ registered close_bill
    ∷ []

abbrev pub after_load : String → Result LoadError Registry → Result StartError Service × List Action
after_load host (err e) = (err (registry_failed e), stopped ∷ closed_client ∷ [])
after_load host (ok m) =
    (ok (record { temporal_client = host; temporal_worker = task_queue }), set_currencies m ∷ [])

abbrev pub after_start :
    String → Bool → Result LoadError Registry → Result StartError Service × List Action
after_start host starts load =
    if not starts
    then (err start_failed, closed_client ∷ [])
    else let (r, actions) = after_load host load in (r, started ∷ actions)

-- `initService`: whether the dial and the start succeed, and what the query for the currencies gives.
unfoldable pub init_service :
    String
    → Bool
    → Bool
    → Result RowsError (List CurrencyMeta)
    → Result StartError Service × List Action
unfolding temporal_host_port load_currencies_from_db
init_service env dials starts rows =
    let host = temporal_host_port env in
    let (r, actions) = after_start host starts (load_currencies_from_db rows) in
    if not dials
    then (err dial_failed, [])
    else (r, dialed host ∷ made_worker task_queue ∷ registrations ++ actions)

-- `Shutdown`
unfoldable pub shutdown : Service → List Action
shutdown s = stopped ∷ closed_client ∷ []
