-- ===== src/Registry/Laws.antt =====
-- The registry after a load, and what is valid when it cannot be loaded.
use redesigned_disco.Prelude.{
  Bool, false, ◌≡◌, refl, ◌==◌, ◌||◌, none, is_some, List, [], ◌∷◌, arith, eq_iff, ◌∙◌,
}
use redesigned_disco.Errs.{Result, ok, err}
use redesigned_disco.Models.{Currency, CurrencyMeta}
use redesigned_disco.Store.{has_currency}
use redesigned_disco.Store.Reads.{RowsError}
use redesigned_disco.Registry.{
  Registry, lookup, insert, fill, non_empty, get_currencies, valid, cached_load,
}

known-insert :
    (c k : Currency) (m : CurrencyMeta) (out : Registry)
    → is_some (lookup c (insert k m out)) ≡ (k == c || is_some (lookup c out))
known-insert c k m [] = ground arith
known-insert c k m (entry ∷ rest) =
    ground (arith, known-insert c k m rest, eq_iff entry.0 k, eq_iff entry.0 c, eq_iff k c)

known-fill :
    (c : Currency) (rows : List CurrencyMeta) (out : Registry)
    → is_some (lookup c (fill out rows)) ≡ (has_currency c rows || is_some (lookup c out))
known-fill c [] out = refl
known-fill c (row ∷ rows) out =
    ground (arith, known-fill c rows (insert row.code row out), known-insert c row.code row out)

non_empty-known :
    (c : Currency) (m : Registry)
    → is_some (lookup c (cached_load (non_empty m)).0) ≡ is_some (lookup c m)
non_empty-known c [] = refl
non_empty-known c (entry ∷ rest) = refl

-- The codes that a query's answer lists; an error lists none.
abbrev pub listed : Currency → Result RowsError (List CurrencyMeta) → Bool
listed c (ok rows) = has_currency c rows
listed c (err e) = false

-- On a cold cache a currency is valid exactly if the query's answer lists its code; where the query
-- or the loop over its rows fails, none is.
pub cold_registry :
    (c : Currency) (rows : Result RowsError (List CurrencyMeta))
    → valid (get_currencies none none rows).0 c ≡ listed c rows
unfolding valid get_currencies
cold_registry c (ok rows) = non_empty-known c (fill [] rows) ∙ known-fill c rows [] ∙ ground arith
cold_registry c (err e) = refl
