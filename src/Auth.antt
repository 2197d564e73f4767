-- ===== src/Auth.antt =====
-- bill/auth.go and bill/middleware.go: who calls, and who may change state.
pub mod Identity
use Prim.Native.Char.{code}
use redesigned_disco.Prelude.{
  ℕ, String, Bool, true, false, ◌&&◌, ◌||◌, ◌==◌, leb, Option, none, some, List, [], if◌then◌else◌,
}
use redesigned_disco.Errs.{
  ApiError, Result, ok, err, unauthenticated, unavailable, permission_denied, api_error,
}
use redesigned_disco.Store.{Client, ClientStatus, active, suspended, DbError}
use redesigned_disco.Clients.{
  Cached, CacheWrite, ClientError, client_not_found, load_failed, lookup_client,
}

-- `unicode.IsSpace`, on code points.
abbrev pub is_space : ℕ → Bool
is_space c =
    leb 9 c && leb c 13
    || leb 32 c && leb c 32
    || leb 133 c && leb c 133
    || leb 160 c && leb c 160
    || leb 5760 c && leb c 5760
    || leb 8192 c && leb c 8202
    || leb 8232 c && leb c 8233
    || leb 8239 c && leb c 8239
    || leb 8287 c && leb c 8287
    || leb 12288 c && leb c 12288

trim_left : String → String
trim_left String.[] = ""
trim_left (String.◌∷◌ c s) =
    let rest = trim_left s in if is_space (code c) then rest else String.◌∷◌ c s

trim_right : String → String
trim_right String.[] = ""
trim_right (String.◌∷◌ c s) =
    let rest = trim_right s in if is_space (code c) && rest == "" then "" else String.◌∷◌ c rest

-- `strings.TrimSpace`
unfoldable pub trim_space : String → String
unfolding trim_left trim_right
trim_space s = trim_right (trim_left s)

pub record AuthData : Type 0 where
  pub account_id : String
  pub status : ClientStatus
  pub name : String

-- A handler that returns, or that panics on a nil pointer.
pub data Handled (A : Type 0) : Type 0 where
  returned : Result ApiError A → Handled A
  panicked : Handled A

-- The status and name of the client are read through its pointer.
abbrev pub identified : String → Result ClientError (Option Client) → Handled AuthData
identified id (err client_not_found) = returned (api_error unauthenticated "unknown account")
identified id (err (load_failed e)) =
    returned (api_error unavailable "failed to resolve caller identity")
identified id (ok none) = panicked
identified id (ok (some c)) =
    returned (ok (record { account_id = id; status = c.status; name = c.name }))

-- `load` is what the database would answer for the trimmed id.
unfoldable pub auth_handler :
    String → Cached → Cached → (String → Result DbError Client) → Handled AuthData × List CacheWrite
unfolding lookup_client
auth_handler header first second load =
    let id = trim_space header in
    if id == ""
    then (returned (api_error unauthenticated "X-Account-Id header is required"), [])
    else let (r, writes) = lookup_client id first second (load id) in (identified id r, writes)

-- `callerAccountID`, on what `auth.Data()` holds.
abbrev pub caller_account_id : Option AuthData → String
caller_account_id none = ""
caller_account_id (some identity) = identity.account_id

-- `assertActiveCaller`; `none` is nil.
unfoldable pub assert_active_caller : Option AuthData → Option ApiError
assert_active_caller none =
    some (record { code = unauthenticated; message = "missing caller identity" })
assert_active_caller (some identity) = elim identity.status [
  | active ↦ none
  | suspended ↦ some (record {
    code = permission_denied;
    message = "account not permitted to perform this operation";
  })
]

-- A handler with state, as the middleware sees it.
abbrev pub Endpoint : Type 0 → Type 0 → Type 0
Endpoint S A = S → Result ApiError A × S

abbrev pub unless_rejected : {S A : Type 0} → Option ApiError → Endpoint S A → Endpoint S A
unless_rejected (some e) next s = (err e, s)
unless_rejected none next s = next s

-- `RequireActiveCaller`, in front of every endpoint that is tagged as mutating.
unfoldable pub require_active_caller :
    {S A : Type 0} → Option AuthData → Endpoint S A → Endpoint S A
unfolding assert_active_caller
require_active_caller caller next = unless_rejected (assert_active_caller caller) next
