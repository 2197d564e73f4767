-- ===== src/Service/Lifecycle.antt =====
-- What the service holds while it starts, runs and stops.
use redesigned_disco.Prelude.{
  String, Bool, ◌≡◌, refl, true, false, not, ◌&&◌, Option, none, some, is_some, List, [], ◌∷◌, ◌++◌,
  if◌then◌else◌,
}
use redesigned_disco.Errs.{Result, ok, err}
use redesigned_disco.Models.{CurrencyMeta}
use redesigned_disco.Store.Reads.{RowsError}
use redesigned_disco.Registry.{Registry, LoadError, load_currencies_from_db}
use redesigned_disco.Service.{
  Registered, billing_workflow, create_bill, append_line_item, close_bill, Action, dialed,
  made_worker, registered, started, stopped, closed_client, set_currencies, StartError, Service,
  init_service, shutdown,
}

-- The client, the functions of the worker on it, whether the worker runs, and the cached registry.
pub record Held : Type 0 where
  pub client : Option String
  pub functions : Option (List Registered)
  pub running : Bool
  pub registry : Option Registry

abbrev pub nothing : Held
nothing = record { client = none; functions = none; running = false; registry = none }

abbrev pub with_function : Registered → Option (List Registered) → Held → Option Held
with_function f none h = none
with_function f (some fs) h = some (record h { functions = some (fs ++ f ∷ []) })

-- What an action makes of what is held; `none` where it is out of order: a worker made without a
-- client, started before it is made or while it runs, stopped while it does not run, or a client
-- closed under a running worker.
abbrev pub act : Action → Held → Option Held
act (dialed host) h = if is_some h.client then none else some (record h { client = some host })
act (made_worker queue) h =
    if is_some h.client && not (is_some h.functions)
    then some (record h { functions = some [] })
    else none
act (registered f) h = with_function f h.functions h
act started h =
    if is_some h.functions && not h.running then some (record h { running = true }) else none
act stopped h = if h.running then some (record h { running = false }) else none
act closed_client h =
    if is_some h.client && not h.running
    then some (record h { client = none; functions = none })
    else none
act (set_currencies m) h = some (record h { registry = some m })

abbrev pub act_on : Option Held → List Action → Option Held
act_on none actions = none
act_on (some h) [] = some h
act_on (some h) (a ∷ rest) = act_on (act a h) rest

-- What there is to hold after the start.
abbrev pub held_after : Result StartError Service → Result LoadError Registry → Held
held_after (ok s) (ok m) = record {
  client = some s.temporal_client;
  functions = some (billing_workflow ∷ create_bill ∷ append_line_item ∷ close_bill ∷ []);
  running = true;
  registry = some m;
}
held_after (ok s) (err e) = nothing
held_after (err e) load = nothing

abbrev pub kept_registry : Result StartError Service → Result LoadError Registry → Option Registry
kept_registry (ok s) (ok m) = some m
kept_registry (ok s) (err e) = none
kept_registry (err e) load = none

-- However the dial, the start of the worker and the load of the currencies go: no action of the start
-- is out of order; where it fails, neither a client nor a worker is left, and no registry is cached;
-- where it succeeds, there is a client, a running worker on it with the workflow and all three
-- activities, and the registry that was loaded; and the shutdown then stops the worker before it
-- closes the client, and leaves nothing but the cached registry.
pub init_service-releases :
    (env : String) (dials starts : Bool) (rows : Result RowsError (List CurrencyMeta))
    → let (result, actions) = init_service env dials starts rows in
      let load = load_currencies_from_db rows in
      (act_on (some nothing) actions ≡ some (held_after result load))
      × ((s : Service)
          → result ≡ ok s
          → act_on (some (held_after result load)) (shutdown s)
            ≡ some (record nothing { registry = kept_registry result load }))
unfolding init_service shutdown
init_service-releases env false starts rows = (refl, λ s e. cc)
init_service-releases env true false rows = (refl, λ s e. cc)
init_service-releases env true true rows = by_load (load_currencies_from_db rows) refl
  where
    by_load :
        (load : Result LoadError Registry)
        → load_currencies_from_db rows ≡ load
        → let (result, actions) = init_service env true true rows in
          (act_on (some nothing) actions ≡ some (held_after result (load_currencies_from_db rows)))
          × ((s : Service)
              → result ≡ ok s
              → act_on (some (held_after result (load_currencies_from_db rows))) (shutdown s)
                ≡ some (record nothing {
                  registry = kept_registry result (load_currencies_from_db rows);
                }))
    by_load (ok m) e = rw e (refl, λ s k. refl)
    by_load (err x) e = rw e (refl, λ s k. cc)
