-- ===== src/Auth/Identity.antt =====
-- What the auth handler and the middleware promise, and where the handler panics.
use redesigned_disco.Prelude.{
  String, true, false, ◌≡◌, refl, ◌≢◌, ◌⊎◌, inl, inr, ◌==◌, Option, none, some, arith, eq_iff,
  Bool-cases, ◌↔◌, sym, ◌∙◌, ap,
}
use redesigned_disco.Errs.{
  ApiError, Result, ok, err, unauthenticated, unavailable, permission_denied,
}
use redesigned_disco.Store.{
  Client, ClientStatus, active, suspended, DbError, no_rows, invalid, connection,
}
use redesigned_disco.Clients.{
  Cached, hit, hit_nil, miss, lookup_client, ClientError, client_not_found, load_failed,
}
use redesigned_disco.Auth.{
  AuthData, Handled, returned, panicked, auth_handler, trim_space, identified, Endpoint,
  require_active_caller, assert_active_caller,
}

-- Where an identity comes from: one of the two looks at the cache, or the load.
abbrev pub Source : Cached → Cached → Result DbError Client → Client → Type 0
Source first second load c =
    (first ≡ hit c)
    ⊎ ((first ≡ miss) × (second ≡ hit c))
    ⊎ ((first ≡ miss) × (second ≡ miss) × (load ≡ ok c))

lookup-Source :
    (id : String) (first second : Cached) (load : Result DbError Client) (c : Client)
    → (lookup_client id first second load).0 ≡ ok (some c)
    → Source first second load c
unfolding lookup_client
lookup-Source id (hit x) second load c h = inl (ground arith)
lookup-Source id hit_nil second load c h = cc
lookup-Source id miss (hit x) load c h = inr (inl (refl, ground arith))
lookup-Source id miss hit_nil load c h = cc
lookup-Source id miss miss (err no_rows) c h = cc
lookup-Source id miss miss (err invalid) c h = cc
lookup-Source id miss miss (err connection) c h = cc
lookup-Source id miss miss (ok x) c h = inr (inr (refl, refl, ground arith))

identified-client :
    (id : String) (r : Result ClientError (Option Client)) (a : AuthData)
    → identified id r ≡ returned (ok a)
    → (c : Client) × (r ≡ ok (some c))
      × (a ≡ record { account_id = id; status = c.status; name = c.name })
identified-client id (err client_not_found) a h = cc
identified-client id (err (load_failed e)) a h = cc
identified-client id (ok none) a h = cc
identified-client id (ok (some c)) a h = (c, refl, ground arith)

not_accepted : {a : AuthData} (e : ApiError) → returned (err e) ≡ returned (ok a) → ⊥
not_accepted e h = cc

not_panicked : (r : Result ApiError AuthData) → returned r ≡ panicked → ⊥
not_panicked r h = cc

same_error :
    (e f : ApiError) → ◌≡◌ {A = Handled AuthData} (returned (err e)) (returned (err f)) → e ≡ f
same_error e f h = cc

different : (s : String) → (s == "") ≡ false → s ≡ "" → ⊥
different s e h = ground (arith, eq_iff s "")

auth_reduced :
    (header : String) (first second : Cached) (load : String → Result DbError Client)
    → (trim_space header == "") ≡ false
    → (auth_handler header first second load).0
      ≡ identified
          (trim_space header)
          (lookup_client (trim_space header) first second (load (trim_space header))).0
unfolding auth_handler
auth_reduced header first second load e = rw e

auth_missing :
    (header : String) (first second : Cached) (load : String → Result DbError Client)
    → (trim_space header == "") ≡ true
    → (auth_handler header first second load).0
      ≡ returned
          (err (record { code = unauthenticated; message = "X-Account-Id header is required" }))
unfolding auth_handler
auth_missing header first second load e = rw e

-- An accepted caller is the account of the trimmed header, which is not empty, with the status and
-- the name of a client that the cache held or the database answered for it.
pub auth_handler-accepts :
    (header : String) (first second : Cached) (load : String → Result DbError Client) (a : AuthData)
    → (auth_handler header first second load).0 ≡ returned (ok a)
    → (trim_space header ≢ "")
      × (a.account_id ≡ trim_space header)
      × ((c : Client) × Source first second (load (trim_space header)) c
          × (a.status ≡ c.status)
          × (a.name ≡ c.name))
auth_handler-accepts header first second load a h = elim (Bool-cases (trim_space header == "")) [
  | inl e ↦ absurd (not_accepted _ (sym (auth_missing header first second load e) ∙ h))
  | inr e ↦
      let id = trim_space header in
      let (c, found, same) =
        identified-client id _ a (sym (auth_reduced header first second load e) ∙ h) in
      (
        λ empty. different id e empty,
        ap (λ (x : AuthData). x.account_id) same,
        (
          c,
          lookup-Source id first second (load id) c found,
          ap (λ (x : AuthData). x.status) same,
          ap (λ (x : AuthData). x.name) same,
        ),
      )
]

panics_on :
    (id : String) (first second : Cached) (load : Result DbError Client)
    → (identified id (lookup_client id first second load).0 ≡ panicked)
      ↔ ((first ≡ miss) × (second ≡ hit_nil))
unfolding lookup_client
panics_on id (hit x) second load = (λ h. cc, λ h. cc)
panics_on id hit_nil second load = (λ h. cc, λ h. cc)
panics_on id miss (hit x) load = (λ h. cc, λ h. cc)
panics_on id miss hit_nil load = (λ h. (refl, refl), λ h. refl)
panics_on id miss miss (err no_rows) = (λ h. cc, λ h. cc)
panics_on id miss miss (err invalid) = (λ h. cc, λ h. cc)
panics_on id miss miss (err connection) = (λ h. cc, λ h. cc)
panics_on id miss miss (ok x) = (λ h. cc, λ h. cc)

-- The handler panics exactly where the header is not blank, the first look at the cache misses and
-- the flight's own look then finds the entry of an unknown id.
pub auth_handler-panics :
    (header : String) (first second : Cached) (load : String → Result DbError Client)
    → ((auth_handler header first second load).0 ≡ panicked)
      ↔ ((trim_space header ≢ "") × (first ≡ miss) × (second ≡ hit_nil))
auth_handler-panics header first second load =
    let id = trim_space header in
    let on = panics_on id first second (load id) in
    elim (Bool-cases (id == "")) [
      | inl e ↦ (
        λ h. absurd (not_panicked _ (sym (auth_missing header first second load e) ∙ h)),
        λ h. absurd (h.0 ((eq_iff id "").0 e)),
      )
      | inr e ↦ (
        λ h.
            let p = on.0 (sym (auth_reduced header first second load e) ∙ h) in
            (λ empty. different id e empty, p.0, p.1),
        λ h. auth_reduced header first second load e ∙ on.1 (h.1, h.2),
      )
    ]

abbrev no_header : ApiError
no_header = record { code = unauthenticated; message = "X-Account-Id header is required" }

abbrev unknown_account : ApiError
unknown_account = record { code = unauthenticated; message = "unknown account" }

abbrev unresolved : ApiError
unresolved = record { code = unavailable; message = "failed to resolve caller identity" }

-- The account is known not to exist: by the cache, or by a load on two misses.
abbrev pub IsUnknown : Cached → Cached → Result DbError Client → Type 0
IsUnknown first second load =
    (first ≡ hit_nil) ⊎ ((first ≡ miss) × (second ≡ miss) × (load ≡ err no_rows))

-- Nothing is cached, and the load fails for another reason.
abbrev pub IsUnresolved : Cached → Cached → Result DbError Client → Type 0
IsUnresolved first second load =
    (first ≡ miss) × (second ≡ miss) × ((f : DbError) × (load ≡ err f) × (f ≢ no_rows))

abbrev RejectedWith : Cached → Cached → Result DbError Client → ApiError → Type 0
RejectedWith first second load e =
    ((e ≡ unknown_account) × IsUnknown first second load)
    ⊎ ((e ≡ unresolved) × IsUnresolved first second load)

rejected_with :
    (id : String) (first second : Cached) (load : Result DbError Client) (e : ApiError)
    → identified id (lookup_client id first second load).0 ≡ returned (err e)
    → RejectedWith first second load e
unfolding lookup_client
rejected_with id (hit x) second load e h = cc
rejected_with id hit_nil second load e h = inl (same_error _ _ (sym h), inl refl)
rejected_with id miss (hit x) load e h = cc
rejected_with id miss hit_nil load e h = cc
rejected_with id miss miss (err no_rows) e h = inl (same_error _ _ (sym h), inr (refl, refl, refl))
rejected_with id miss miss (err invalid) e h =
    inr (same_error _ _ (sym h), (refl, refl, (invalid, refl, λ x. cc)))
rejected_with id miss miss (err connection) e h =
    inr (same_error _ _ (sym h), (refl, refl, (connection, refl, λ x. cc)))
rejected_with id miss miss (ok x) e h = cc

unknown_rejected :
    (id : String) (first second : Cached) (load : Result DbError Client)
    → IsUnknown first second load
    → identified id (lookup_client id first second load).0 ≡ returned (err unknown_account)
unfolding lookup_client
unknown_rejected id first second load (inl e) = rw e refl
unknown_rejected id first second load (inr (e, f, g)) = rw (e, f, g) refl

failed_rejected :
    (id : String) (f : DbError)
    → f ≢ no_rows
    → identified id (lookup_client id miss miss (err f)).0 ≡ returned (err unresolved)
unfolding lookup_client
failed_rejected id no_rows h = absurd (h refl)
failed_rejected id invalid h = refl
failed_rejected id connection h = refl

with_rejected :
    (id : String) (first second : Cached) (load : Result DbError Client) (e : ApiError)
    → RejectedWith first second load e
    → identified id (lookup_client id first second load).0 ≡ returned (err e)
with_rejected id first second load e (inl (same, u)) =
    unknown_rejected id first second load u ∙ ap (λ x. returned (err x)) (sym same)
with_rejected id first second load e (inr (same, (p, q, (f, r, other)))) =
    rw (same, p, q, r) (failed_rejected id f other)

-- The handler answers an error exactly in three cases, each with its own: Unauthenticated for a
-- header that is missing or blank; Unauthenticated, with another message, for an account that the
-- cache holds as unknown, or that it does not hold and the load does not find; and Unavailable
-- where nothing is cached and the load fails for another reason.
pub auth_handler-rejects :
    (header : String) (first second : Cached) (load : String → Result DbError Client) (e : ApiError)
    → let id = trim_space header in
      ((auth_handler header first second load).0 ≡ returned (err e)) ↔ (
        ((id ≡ "")
          × (e ≡ record { code = unauthenticated; message = "X-Account-Id header is required" }))
        ⊎ ((id ≢ "")
            × (e ≡ record { code = unauthenticated; message = "unknown account" })
            × IsUnknown first second (load id))
        ⊎ ((id ≢ "")
            × (e ≡ record { code = unavailable; message = "failed to resolve caller identity" })
            × IsUnresolved first second (load id)))
auth_handler-rejects header first second load e =
    let id = trim_space header in
    let missing = auth_missing header first second load in
    let reduced = auth_reduced header first second load in
    elim (Bool-cases (id == "")) [
      | inl p ↦
          let empty = (eq_iff id "").0 p in
          (
            λ h. inl (empty, same_error _ _ (sym h ∙ missing p)),
            λ h. elim h [
              | inl x ↦ missing p ∙ ap (λ y. returned (err y)) (sym x.1)
              | inr (inl x) ↦ absurd (x.0 empty)
              | inr (inr x) ↦ absurd (x.0 empty)
            ],
          )
      | inr p ↦
          let full = different id p in
          (
            λ h. elim (rejected_with id first second (load id) e (sym (reduced p) ∙ h)) [
              | inl x ↦ inr (inl (full, x.0, x.1))
              | inr x ↦ inr (inr (full, x.0, x.1))
            ],
            λ h. elim h [
              | inl x ↦ absurd (full x.0)
              | inr (inl x) ↦ reduced p ∙ with_rejected id first second (load id) e (inl (x.1, x.2))
              | inr (inr x) ↦ reduced p ∙ with_rejected id first second (load id) e (inr (x.1, x.2))
            ],
          )
    ]

guards_by :
    {S A : Type 0} (a : AuthData) (status : ClientStatus)
    → a.status ≡ status
    → (next : Endpoint S A) (s : S)
    → ((b : AuthData) × (some a ≡ some b)
        × (b.status ≡ active)
        × (require_active_caller (some a) next s ≡ next s))
      ⊎ ((e : ApiError) × (require_active_caller (some a) next s ≡ (err e, s))
          × ((some a ≡ none) × (e.code ≡ unauthenticated)
              ⊎ ((b : AuthData) × (some a ≡ some b)
                  × (b.status ≡ suspended)
                  × (e.code ≡ permission_denied))))
unfolding require_active_caller
guards_by a active p next s = inl (a, refl, p, rw (p, assert_active_caller))
guards_by a suspended p next s = inr (
  record { code = permission_denied; message = "account not permitted to perform this operation" },
  rw (p, assert_active_caller),
  inr (a, refl, p, refl),
)

-- Behind the middleware an endpoint runs for an active caller alone; for any other the state is
-- left as it is, and the error is PermissionDenied for a suspended caller and Unauthenticated where
-- there is none.
pub require_active_caller-guards :
    {S A : Type 0} (caller : Option AuthData) (next : Endpoint S A) (s : S)
    → ((a : AuthData) × (caller ≡ some a)
        × (a.status ≡ active)
        × (require_active_caller caller next s ≡ next s))
      ⊎ ((e : ApiError) × (require_active_caller caller next s ≡ (err e, s))
          × ((caller ≡ none) × (e.code ≡ unauthenticated)
              ⊎ ((a : AuthData) × (caller ≡ some a)
                  × (a.status ≡ suspended)
                  × (e.code ≡ permission_denied))))
unfolding require_active_caller
require_active_caller-guards none next s = inr (_, refl, inl (refl, refl))
require_active_caller-guards (some a) next s = guards_by a a.status refl next s
