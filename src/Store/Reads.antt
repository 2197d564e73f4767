-- ===== src/Store/Reads.antt =====
-- What the connection does with the queries of a request, and how the code reads their rows: one row
-- by `QueryRow(...).Scan`, many by the loop over `rows.Next()`, `rows.Scan` and `rows.Err()`.
use redesigned_disco.Prelude.{◌≡◌, refl, arith, ℕ, String, List, [], ◌∷◌, concat}
use redesigned_disco.Errs.{ApiError, Result, ok, err, api_error, internal}
use redesigned_disco.Store.{DbError, connection}

-- A query is answered, or it fails, or a row cannot be scanned, or the rows break off with an error
-- of the given text.
pub data Reading : Type 0 where
  answered failed unscannable : Reading
  broken_off : String → Reading

-- The conduct at the n-th query of a request.
abbrev pub Reads : Type 0
Reads = ℕ → Reading

abbrev pub all_answered : Reads
all_answered n = answered

pub data RowsError : Type 0 where
  query_error : DbError → RowsError
  scan_error : RowsError
  rows_error : String → RowsError

-- A query that the database refuses (a text that is no UUID, say) fails at once, or where its rows
-- break off.
abbrev pub refused_rows : Reading → DbError → RowsError
refused_rows answered e = query_error e
refused_rows failed e = query_error e
refused_rows unscannable e = query_error e
refused_rows (broken_off why) e = rows_error why

module _ {ℓ} {A : Type ℓ} where
  abbrev pub read_row : Reading → Result DbError A → Result DbError A
  read_row answered r = r
  read_row failed r = err connection
  read_row unscannable r = err connection
  read_row (broken_off why) r = err connection

  abbrev pub scanned_rows : Reading → List A → Result RowsError (List A)
  scanned_rows answered rows = ok rows
  scanned_rows failed rows = err (query_error connection)
  scanned_rows unscannable [] = ok []
  scanned_rows unscannable (row ∷ rows) = err scan_error
  scanned_rows (broken_off why) rows = err (rows_error why)

  abbrev pub read_rows : Reading → Result DbError (List A) → Result RowsError (List A)
  read_rows c (err e) = err (refused_rows c e)
  read_rows c (ok rows) = scanned_rows c rows

  -- How a list endpoint reports the three failures.
  abbrev pub rows_failure : String → String → String → RowsError → Result ApiError A
  rows_failure listing scanning iterating (query_error e) = api_error internal listing
  rows_failure listing scanning iterating scan_error = api_error internal scanning
  rows_failure listing scanning iterating (rows_error why) =
      api_error internal (concat iterating why)

  -- Rows that a loop gave are all the rows of the query's answer.
  pub read_rows-ok :
      (c : Reading) (r : Result DbError (List A)) (page : List A)
      → read_rows c r ≡ ok page
      → (rows : List A) × (r ≡ ok rows) × (rows ≡ page)
  read_rows-ok c (err e) page h = cc
  read_rows-ok answered (ok rows) page h = (rows, refl, ground arith)
  read_rows-ok failed (ok rows) page h = cc
  read_rows-ok unscannable (ok []) page h = ([], refl, ground arith)
  read_rows-ok unscannable (ok (row ∷ rows)) page h = cc
  read_rows-ok (broken_off why) (ok rows) page h = cc

  pub rows_failure-fails :
      (listing scanning iterating : String) (e : RowsError) (a : A)
      → rows_failure listing scanning iterating e ≡ ok a
      → ⊥
  rows_failure-fails listing scanning iterating (query_error e) a h = cc
  rows_failure-fails listing scanning iterating scan_error a h = cc
  rows_failure-fails listing scanning iterating (rows_error why) a h = cc
