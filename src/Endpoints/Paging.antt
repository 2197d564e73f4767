-- ===== src/Endpoints/Paging.antt =====
-- What the limits, the cursors and the cut of a page promise.
use Prim.Native.String.append
use redesigned_disco.Prelude.{
  get_elem?, eq_iff, arith, ap, ◌∙◌, ℕ, zero, suc, ◌≤◌, String, false, ◌≡◌, refl, ltb, Option, none,
  some, List, [], ◌∷◌, concat, if◌then◌else◌, length, take,
}
use redesigned_disco.Errs.{ok}
use redesigned_disco.Money.{Decimal, Postgres}
use redesigned_disco.Models.{Time, Bill}
use redesigned_disco.Store.{Db}
use redesigned_disco.Store.Reads.{answered, all_answered}
use redesigned_disco.Views.{to_line_item_views}
use redesigned_disco.Endpoints.Loading.{
  TemporalClient, load_bill_summary, assert_owns_bill, items_of,
}
use redesigned_disco.Endpoints.ListItems.{
  ListLineItemsRequest, requested_limit, decode_line_item_cursor, next_cursor_of, read_page,
  list_line_items,
}
use redesigned_disco.Endpoints.Cursors.{
  ℤ, pos, negsuc, page_limit, CursorText, has_bar, split_bar, decode_keyset_cursor,
  encode_line_item_cursor, cut_page,
}

-- A limit that is accepted is between 1 and 500.
pub page_limit-bounds :
    (requested : Option ℤ) (limit : ℕ)
    → page_limit requested ≡ ok limit
    → (1 ≤ limit) × (limit ≤ 500)
unfolding page_limit
page_limit-bounds none limit h = (ground arith, ground arith)
page_limit-bounds (some (negsuc n)) limit h = cc
page_limit-bounds (some (pos n)) limit h = (ground arith, ground arith)

pub bar-concat : (id : String) → concat "|" id ≡ String.◌∷◌ "|" id
bar-concat id = append.cons "|" String.[] id ∙ ap (λ s. String.◌∷◌ "|" s) (append.nil id)

split_bar-concat :
    (s id : String) → has_bar s ≡ false → split_bar (concat s (concat "|" id)) ≡ some (s, id)
split_bar-concat String.[] id h = ap split_bar (append.nil (concat "|" id) ∙ bar-concat id)
split_bar-concat (String.◌∷◌ c s) id h =
    ap split_bar (append.cons c s (concat "|" id)) ∙ ground (arith, split_bar-concat s id)

-- A cursor decodes to the instant and the id that it was made from.
pub decode-encode_line_item_cursor :
    (t : CursorText) (at : Time) (id : String)
    → decode_keyset_cursor t (encode_line_item_cursor t at id) ≡ ok (at, id)
unfolding decode_keyset_cursor encode_line_item_cursor
decode-encode_line_item_cursor t at id =
    rw (t.decode-encode, split_bar-concat (t.format at) id (t.no_bar at), t.parse-format) refl

module _ {ℓ} {A : Type ℓ} where
  length-take : (n : ℕ) (xs : List A) → ltb n (length (take (suc n) xs)) ≡ ltb n (length xs)
  length-take n [] = refl
  length-take zero (x ∷ xs) = ground arith
  length-take (suc n) (x ∷ xs) = ground (arith, length-take n xs)

  take-take : (n : ℕ) (xs : List A) → take n (take (suc n) xs) ≡ take n xs
  take-take zero xs = refl
  take-take (suc n) [] = refl
  take-take (suc n) (x ∷ xs) = ground (arith, take-take n xs)

  take_all : (n : ℕ) (xs : List A) → ltb n (length xs) ≡ false → take (suc n) xs ≡ take n xs
  take_all zero [] h = refl
  take_all (suc n) [] h = refl
  take_all zero (x ∷ xs) h = ground arith
  take_all (suc n) (x ∷ xs) h = ground (arith, take_all n xs)

  get_elem?-take : (n : ℕ) (xs : List A) → get_elem? (take (suc (suc n)) xs) n ≡ get_elem? xs n
  get_elem?-take n [] = refl
  get_elem?-take zero (x ∷ xs) = refl
  get_elem?-take (suc n) (x ∷ xs) = get_elem?-take n xs

  -- With limit + 1 rows read, a page has the first `limit` rows there are; and there is a next cursor
  -- exactly if there are more rows than that, made from the last row of the page.
  pub cut_page-take :
      (n : ℕ) (rows : List A)
      → cut_page (suc n) (take (suc (suc n)) rows)
        ≡ (take (suc n) rows, (if ltb (suc n) (length rows) then get_elem? rows n else none))
  unfolding cut_page
  cut_page-take n rows = ground (
    arith,
    length-take (suc n) rows,
    take-take (suc n) rows,
    take_all (suc n) rows,
    get_elem?-take n rows,
  )

module _ {D : Type 0} {d : Decimal D} (pg : Postgres D d) (format : Time → String) where
  own_bill :
      (client : TemporalClient D) (id caller : String) (db : Db D) (bill : Bill D)
      → load_bill_summary pg client answered id db ≡ ok bill
      → bill.account_id ≡ caller
      → assert_owns_bill pg client answered id caller db ≡ ok tt
  unfolding assert_owns_bill
  own_bill client id caller db bill loaded own = ground (arith, eq_iff bill.account_id caller)

  -- Without a cursor, ListLineItems shows the owner of a bill the first `limit` of the line items that
  -- GetBill shows whole, and gives a cursor exactly if there are more, made from the last one shown.
  pub list_line_items-first_page :
      (client : TemporalClient D) (t : CursorText) (id caller key : String) (db : Db D)
      (bill : Bill D) (req : Option ListLineItemsRequest) (n : ℕ) (at : Time)
      → load_bill_summary pg client answered id db ≡ ok bill
      → bill.account_id ≡ caller
      → pg.uuid id ≡ some key
      → page_limit (requested_limit req) ≡ ok (suc n)
      → decode_line_item_cursor t req ≡ ok (at, "")
      → let all = items_of key db.items in
        list_line_items pg format client t all_answered id caller db req
        ≡ ok (record {
          items = to_line_item_views d format (take (suc n) all);
          next_cursor =
              next_cursor_of t (if ltb (suc n) (length all) then get_elem? all n else none);
          limit = suc n;
        })
  unfolding list_line_items read_page
  list_line_items-first_page client t id caller key db bill req n at loaded own read limit start =
      rw (own_bill client id caller db bill loaded own, limit, start, read)
        (rw (cut_page-take n (items_of key db.items)) refl)
