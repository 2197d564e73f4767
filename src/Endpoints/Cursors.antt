-- ===== src/Endpoints/Cursors.antt =====
-- bill/endpoints.go: the limits, the cursors and the cut of a page that the list endpoints share.
use Prim.Native.Char.{Char, code}
use redesigned_disco.Prelude.{
  ◌≡◌, ◌≢◌, get_elem?, ℕ, ◌-◌, String, Bool, false, ◌&&◌, ◌||◌, leb, ltb, Option, none, some, List,
  concat, if◌then◌else◌, length, take,
}
use redesigned_disco.Errs.{ApiError, Result, ok, api_error, invalid_argument}
use redesigned_disco.Models.{Time}

-- Go's `int`, as far as a request's limit goes.
pub data ℤ : Type 0 where
  pos negsuc : ℕ → ℤ

abbrev pub default_list_limit : ℕ
default_list_limit = 50

abbrev pub max_list_limit : ℕ
max_list_limit = 500

abbrev pub capped : ℕ → ℕ
capped limit = if ltb max_list_limit limit then max_list_limit else limit

-- The limit of a page; `none` is the nil request.
unfoldable pub page_limit : Option ℤ → Result ApiError ℕ
page_limit none = ok (capped default_list_limit)
page_limit (some (negsuc n)) = api_error invalid_argument "limit must be non-negative"
page_limit (some (pos n)) = ok (capped (if ltb 0 n then n else default_list_limit))

abbrev pub is_bar : Char → Bool
is_bar c = leb 124 (code c) && leb (code c) 124

abbrev pub has_bar : String → Bool
has_bar String.[] = false
has_bar (String.◌∷◌ c s) = is_bar c || has_bar s

-- What the cursors use of `base64.URLEncoding` and of `time.RFC3339Nano`: base64 gives back the bytes
-- it encoded, and a text for any bytes; RFC 3339 gives back an instant, and writes no bar.
pub record CursorText : Type 0 where
  pub encode_bytes : String → String
  pub decode_bytes : String → Option String
  pub format : Time → String
  pub parse : String → Option Time
  pub decode-encode : (raw : String) → decode_bytes (encode_bytes raw) ≡ some raw
  pub encode_some : (raw : String) → raw ≢ "" → encode_bytes raw ≢ ""
  pub parse-format : (at : Time) → parse (format at) ≡ some at
  pub no_bar : (at : Time) → has_bar (format at) ≡ false

abbrev pub longer : Char → Option (String × String) → Option (String × String)
longer c none = none
longer c (some (left, right)) = some (String.◌∷◌ c left, right)

-- `strings.SplitN(s, "|", 2)`; `none` where it gives one part.
abbrev pub split_bar : String → Option (String × String)
split_bar String.[] = none
split_bar (String.◌∷◌ c s) =
    let rest = split_bar s in if is_bar c then some ("", s) else longer c rest

abbrev pub with_time : Option Time → String → Result ApiError (Time × String)
with_time none id = api_error invalid_argument "invalid cursor"
with_time (some at) id = ok (at, id)

abbrev pub with_parts : CursorText → Option (String × String) → Result ApiError (Time × String)
with_parts t none = api_error invalid_argument "invalid cursor"
with_parts t (some (at, id)) = with_time (t.parse at) id

abbrev pub with_bytes : CursorText → Option String → Result ApiError (Time × String)
with_bytes t none = api_error invalid_argument "invalid cursor"
with_bytes t (some raw) = with_parts t (split_bar raw)

-- `decodeKeysetCursor`
unfoldable pub decode_keyset_cursor : CursorText → String → Result ApiError (Time × String)
decode_keyset_cursor t cursor = with_bytes t (t.decode_bytes cursor)

-- `encodeLineItemCursor`
unfoldable pub encode_line_item_cursor : CursorText → Time → String → String
encode_line_item_cursor t at id = t.encode_bytes (concat (t.format at) (concat "|" id))

-- A page of the rows that were read, and the row that the next cursor is made from.
unfoldable pub cut_page {ℓ} : {A : Type ℓ} → ℕ → List A → List A × Option A
cut_page limit rows =
    if ltb limit (length rows) then (take limit rows, get_elem? rows (limit - 1)) else (rows, none)

-- The cursor made from the last row of a page; none is the empty text.
abbrev pub cursor_of {ℓ} : {A : Type ℓ} → (A → String) → Option A → String
cursor_of cursor none = ""
cursor_of cursor (some last) = cursor last
