-- ===== src/Endpoints/Pages.antt =====
-- The keyset pages that the list endpoints share: a table in its order, the cursors made from its
-- rows, and the query for the rows beyond a cursor.
use Prim.Native.String.append
use redesigned_disco.Prelude.{
  ℕ, suc, String, Bool, ◌≡◌, ◌≢◌, refl, sym, ◌∙◌, false, ◌==◌, none, some, Option, List, [], ◌∷◌,
  map, arith, All, All-map, eq_iff, if◌then◌else◌, length, take, select, concat,
}
use redesigned_disco.Errs.{ApiError, Result, ok}
use redesigned_disco.Models.{Time}
use redesigned_disco.Keyset.{query_page}
use redesigned_disco.Keyset.Sorting.{RowOrder, IsAscending}
use redesigned_disco.Keyset.Walk.{walk, walk_whole, page_of}
use redesigned_disco.Endpoints.Cursors.{CursorText, decode_keyset_cursor, encode_line_item_cursor}
use redesigned_disco.Endpoints.Paging.{bar-concat, decode-encode_line_item_cursor}

abbrev pub key_text : CursorText → Time → String → String
key_text t at id = concat (t.format at) (concat "|" id)

key_text_some : (s id : String) → concat s (concat "|" id) ≢ ""
key_text_some String.[] id e = let bar = sym (append.nil (concat "|" id) ∙ bar-concat id) ∙ e in cc
key_text_some (String.◌∷◌ c s) id e = let more = sym (append.cons c s (concat "|" id)) ∙ e in cc

-- The cursor of a request: the start, where it has none.
abbrev pub start_or_key : CursorText → String → Result ApiError (Time × String)
start_or_key t c = if c == "" then ok (0, "") else decode_keyset_cursor t c

ne_of : (s u : String) → s ≢ u → (s == u) ≡ false
ne_of s u apart = ground (arith, eq_iff s u)

module _ (t : CursorText) (at : Time) (id : String) where
  cursor_some : t.encode_bytes (key_text t at id) ≢ ""
  cursor_some = t.encode_some _ (key_text_some (t.format at) id)

  start_or_key-cursor : start_or_key t (t.encode_bytes (key_text t at id)) ≡ ok (at, id)
  unfolding encode_line_item_cursor
  start_or_key-cursor =
      let apart : (t.encode_bytes (key_text t at id) == "") ≡ false = ne_of _ "" cursor_some in
      rw apart (decode-encode_line_item_cursor t at id)

module _ {A V : Type 0} (show : A → V) (t : CursorText) (at : A → Time) (id : A → String) (n : ℕ)
    (o : RowOrder A) (uuid : String → Option String) (rows : List A)
    (serve : String → Option (List V × String)) where
  abbrev row_cursor : A → String
  row_cursor a = t.encode_bytes (key_text t (at a) (id a))

  abbrev pub BeyondRow : (Time → String → A → Bool) → Type 0
  BeyondRow beyond = (a b : A) → beyond (at a) (id a) b ≡ o.before a b

  -- What an endpoint does with a cursor that decodes and a query that answers.
  abbrev pub ServesPages : (Time → String → A → Bool) → Type 0
  ServesPages beyond =
      (c : String) (key : Time × String) (page : List A)
      → start_or_key t c ≡ ok key
      → query_page beyond uuid (suc (suc n)) key (ok rows) ≡ ok (take (suc (suc n)) page)
      → serve c ≡ some (page_of show row_cursor n page)

  select_same : (p q : A → Bool) (xs : List A) → ((x : A) → p x ≡ q x) → select p xs ≡ select q xs
  select_same p q [] h = refl
  select_same p q (x ∷ xs) h = ground (arith, h x, select_same p q xs h)

  beyond_key :
      (beyond : Time → String → A → Bool)
      → BeyondRow beyond
      → uuid "" ≡ none
      → (a : A) → uuid (id a) ≡ some (id a)
      → query_page beyond uuid (suc (suc n)) (at a, id a) (ok rows)
        ≡ ok (take (suc (suc n)) (select (o.before a) rows))
  beyond_key beyond same no_uuid a u =
      let named : (id a == "") ≡ false = ne_of (id a) "" (λ e. none_some (rw e at u) no_uuid) in
      rw (named, u, select_same (beyond (at a) (id a)) (o.before a) rows (same a)) refl
    where
      none_some : uuid "" ≡ some "" → uuid "" ≡ none → ⊥
      none_some p q = cc

  -- A client that follows the cursors gets every row once and in order.
  pub walk-pages :
      (beyond : Time → String → A → Bool)
      → BeyondRow beyond
      → ServesPages beyond
      → uuid "" ≡ none
      → All (λ a. uuid (id a) ≡ some (id a)) rows
      → IsAscending o rows
      → walk serve (suc (length rows)) "" ≡ some (map show rows)
  walk-pages beyond same pages no_uuid canonical asc =
      walk_whole show row_cursor n o serve rows (λ a. cursor_some t (at a) (id a)) asc
        (All-map _ _ rows
          (λ a u.
            pages (row_cursor a) (at a, id a) _ (start_or_key-cursor t (at a) (id a))
              (beyond_key beyond same no_uuid a u))
          canonical)
        (pages "" (0, "") rows refl refl)
