-- ===== src/Registry.antt =====
-- bill/registry.go, the methods of `Currency` in bill/models.go, and bill/admin.go: the currency
-- registry. The cache and `singleflight` are libraries: what each `Get` finds and what the query
-- gives are arguments, and what is added to the cache is returned.
pub mod Laws
pub mod ForeignKeys
use redesigned_disco.Prelude.{
  ℕ, String, Bool, true, false, ◌==◌, Option, none, some, is_some, List, [], ◌∷◌, if◌then◌else◌,
  length, concat,
}
use redesigned_disco.Errs.{Result, ok, err, ApiError, api_error, internal}
use redesigned_disco.Money.{Decimal}
use redesigned_disco.Models.{Currency, CurrencyMeta, Time}
use redesigned_disco.Store.{Db, DbError}
use redesigned_disco.Store.Reads.{RowsError}

-- `map[Currency]CurrencyMeta`; the nil map has no keys either.
abbrev pub Registry : Type 0
Registry = List (Currency × CurrencyMeta)

abbrev pub lookup : Currency → Registry → Option CurrencyMeta
lookup c [] = none
lookup c ((k, meta) ∷ rest) = if k == c then some meta else lookup c rest

-- `out[c] = meta`
abbrev pub insert : Currency → CurrencyMeta → Registry → Registry
insert c meta [] = (c, meta) ∷ []
insert c meta (entry ∷ rest) = if entry.0 == c then (c, meta) ∷ rest else entry ∷ insert c meta rest

pub data LoadError : Type 0 where
  load_failed : RowsError → LoadError
  empty_table : LoadError

-- The loop over the rows.
abbrev pub fill : Registry → List CurrencyMeta → Registry
fill out [] = out
fill out (meta ∷ rows) = fill (insert meta.code meta out) rows

abbrev pub non_empty : Registry → Result LoadError Registry
non_empty [] = err empty_table
non_empty (entry ∷ rest) = ok (entry ∷ rest)

-- `loadCurrenciesFromDB`, on the rows or the error that the query gives.
unfoldable pub load_currencies_from_db :
    Result RowsError (List CurrencyMeta) → Result LoadError Registry
load_currencies_from_db (err e) = err (load_failed e)
load_currencies_from_db (ok rows) = non_empty (fill [] rows)

-- A loaded registry is added to the cache; an error gives the nil map and adds nothing.
abbrev pub cached_load : Result LoadError Registry → Registry × List Registry
cached_load (err e) = ([], [])
cached_load (ok m) = (m, m ∷ [])

-- `getCurrencies`: the two looks at the cache, the query, and what is added to the cache.
unfoldable pub get_currencies :
    Option Registry
    → Option Registry
    → Result RowsError (List CurrencyMeta)
    → Registry × List Registry
unfolding load_currencies_from_db
get_currencies (some m) second rows = (m, [])
get_currencies none (some m) rows = (m, [])
get_currencies none none rows = cached_load (load_currencies_from_db rows)

abbrev pub refreshed : Result LoadError Registry → Result LoadError ℕ × List Registry
refreshed (err e) = (err e, [])
refreshed (ok m) = (ok (length m), m ∷ [])

-- `refreshCurrencies`
unfoldable pub refresh_currencies :
    Result RowsError (List CurrencyMeta) → Result LoadError ℕ × List Registry
unfolding load_currencies_from_db
refresh_currencies rows = refreshed (load_currencies_from_db rows)

-- `Currency.Meta`, with its found flag.
unfoldable pub meta : Registry → Currency → Option CurrencyMeta
meta m c = lookup c m

-- `Currency.Valid`
unfoldable pub valid : Registry → Currency → Bool
valid m c = is_some (lookup c m)

abbrev pub decimals_of : Option CurrencyMeta → ℕ
decimals_of none = 2
decimals_of (some row) = row.decimals

-- `Currency.Decimals`
unfoldable pub decimals : Registry → Currency → ℕ
decimals m c = decimals_of (lookup c m)

-- `Currency.FormatAmount`
unfoldable pub format_amount : {D : Type 0} → Decimal D → Registry → Currency → D → String
unfolding decimals
format_amount d m c amount = concat (concat (d.string_fixed amount (decimals m c)) " ") c

pub record RefreshCurrenciesResponse : Type 0 where
  pub currency_count : ℕ
  pub refreshed_at : Time

abbrev pub refresh_response :
    Time
    → Result LoadError ℕ × List Registry
    → Result ApiError RefreshCurrenciesResponse × List Registry
refresh_response now (err e, writes) =
    (api_error internal "failed to refresh currency registry", writes)
refresh_response now (ok n, writes) =
    (ok (record { currency_count = n; refreshed_at = now }), writes)

-- `RefreshCurrencies`
unfoldable pub refresh_currencies_endpoint :
    Time
    → Result RowsError (List CurrencyMeta)
    → Result ApiError RefreshCurrenciesResponse × List Registry
unfolding refresh_currencies
refresh_currencies_endpoint now rows = refresh_response now (refresh_currencies rows)
