-- ===== src/Keyset/Walk.antt =====
-- A client that follows the cursors of a paged list, and what it collects.
use mathlib.Core.Path.{subst}
use mathlib.Core.Option.{some-injective}
use redesigned_disco.Prelude.{
  ℕ, zero, suc, ◌<◌, String, ◌≡◌, ◌≢◌, refl, sym, ◌∙◌, ap, true, false, Option, none, some, List,
  [], ◌∷◌, ◌++◌, map, arith, All, Bool-cases, inl, inr, if◌then◌else◌, ◌==◌, eq_iff, ltb, length,
  take, drop, get_elem?, select,
}
use redesigned_disco.Endpoints.Cursors.{cursor_of}
use redesigned_disco.Keyset.Sorting.{before_irrefl, RowOrder, IsAscending}

module _ {V : Type 0} where
  abbrev pub prepended : List V → Option (List V) → Option (List V)
  prepended vs none = none
  prepended vs (some rest) = some (vs ++ rest)

  abbrev pub continued : (String → Option (List V)) → Option (List V × String) → Option (List V)
  continued rest none = none
  continued rest (some (vs, next)) = if next == "" then some vs else prepended vs (rest next)

  -- The pages from a cursor on, up to a number of requests; `none` where one fails or they do not do.
  unfoldable pub walk : (String → Option (List V × String)) → ℕ → String → Option (List V)
  walk serve zero cursor = none
  walk serve (suc requests) cursor = continued (walk serve requests) (serve cursor)

module _ {A V : Type 0} where
  -- The page that the rows from here on begin with, and its cursor.
  abbrev pub page_of : (A → V) → (A → String) → ℕ → List A → List V × String
  page_of show cursor n rows = (
    map show (take (suc n) rows),
    cursor_of cursor (if ltb (suc n) (length rows) then get_elem? rows n else none),
  )

module _ {A : Type 0} where
  elem_there :
      (n : ℕ) (xs : List A) → ltb (suc n) (length xs) ≡ true → (a : A) × (get_elem? xs n ≡ some a)
  elem_there n [] h = absurd (ground arith)
  elem_there zero (x ∷ xs) h = (x, refl)
  elem_there (suc n) (x ∷ xs) h = elem_there n xs (ground arith)

  take_whole : (n : ℕ) (xs : List A) → ltb n (length xs) ≡ false → take n xs ≡ xs
  take_whole zero [] h = refl
  take_whole (suc n) [] h = refl
  take_whole zero (x ∷ xs) h = ground arith
  take_whole (suc n) (x ∷ xs) h = ground (arith, take_whole n xs)

  take-append-drop : (n : ℕ) (xs : List A) → take n xs ++ drop n xs ≡ xs
  take-append-drop zero xs = refl
  take-append-drop (suc n) [] = refl
  take-append-drop (suc n) (x ∷ xs) = ap (λ l. x ∷ l) (take-append-drop n xs)

  length-drop :
      (n : ℕ) (xs : List A) → ltb n (length xs) ≡ true → length (drop (suc n) xs) < length xs
  length-drop n [] h = ground arith
  length-drop zero (x ∷ xs) h = omega arith
  length-drop (suc n) (x ∷ xs) h = let shorter = length-drop n xs (ground arith) in omega arith

module _ {A V : Type 0} (show : A → V) (cursor : A → String) (n : ℕ) (o : RowOrder A)
    (serve : String → Option (List V × String)) where
  -- The cursor of a row is answered by the page of the rows after it.
  abbrev pub Serves : List A → A → Type 0
  Serves rows l = serve (cursor l) ≡ some (page_of show cursor n (select (o.before l) rows))

  select_whole :
      (l : A) (xs : List A) → All (λ x. o.before l x ≡ true) xs → select (o.before l) xs ≡ xs
  select_whole l [] h = refl
  select_whole l (x ∷ xs) h = let rest = select_whole l xs h.1 in let first = h.0 in ground arith

  abbrev Suffix : List A → Type 0
  Suffix xs = IsAscending o xs × All (Serves xs) xs

  skip :
      (a b : A) (rest : List A)
      → o.before b a ≡ false
      → select (o.before b) (a ∷ rest) ≡ select (o.before b) rest
  skip a b rest e = rw e refl

  after_head :
      (a : A) (rest : List A) → IsAscending o (a ∷ rest) → select (o.before a) (a ∷ rest) ≡ rest
  after_head a rest h = skip a a rest (before_irrefl o a) ∙ select_whole a rest h.0

  Serves-tail :
      (a : A) (whole rest : List A)
      → All (λ b. o.before a b ≡ true) rest
      → All (Serves (a ∷ whole)) rest
      → All (Serves whole) rest
  Serves-tail a whole [] h k = tt
  Serves-tail a whole (b ∷ rest) h k =
      let later : o.before b a ≡ false = o.asymm a b h.0 in
      let served = k.0 in
      (
        subst (λ xs. serve (cursor b) ≡ some (page_of show cursor n xs)) (skip a b whole later)
            served,
        Serves-tail a whole rest h.1 k.1,
      )

  Suffix-tail : (a : A) (rest : List A) → Suffix (a ∷ rest) → Suffix rest
  Suffix-tail a rest (asc, served) = (asc.1, Serves-tail a rest rest asc.0 served.1)

  -- The cursor of the n-th row leads to the rows after it.
  Suffix-drop :
      (k : ℕ) (xs : List A) (l : A)
      → Suffix xs
      → get_elem? xs k ≡ some l
      → Suffix (drop (suc k) xs)
        × (serve (cursor l) ≡ some (page_of show cursor n (drop (suc k) xs)))
  Suffix-drop k [] l h e = absurd (none_some e)
    where
      none_some : none ≡ some l → ⊥
      none_some e = cc
  Suffix-drop zero (a ∷ rest) l h e =
      let served : serve (cursor a) ≡ some (page_of show cursor n rest) =
        subst (λ xs. serve (cursor a) ≡ some (page_of show cursor n xs)) (after_head a rest h.0)
          h.1.0 in
      (
        Suffix-tail a rest h,
        subst (λ x. serve (cursor x) ≡ some (page_of show cursor n rest)) (some-injective _ _ e)
            served,
      )
  Suffix-drop (suc k) (a ∷ rest) l h e = Suffix-drop k rest l (Suffix-tail a rest h) e

  last_step :
      (f : ℕ) (c : String) (vs : List V) → serve c ≡ some (vs, "") → walk serve (suc f) c ≡ some vs
  unfolding walk
  last_step f c vs e = rw e refl

  next_step :
      (f : ℕ) (c next : String) (vs ws : List V)
      → serve c ≡ some (vs, next)
      → next ≢ ""
      → walk serve f next ≡ some ws
      → walk serve (suc f) c ≡ some (vs ++ ws)
  unfolding walk
  next_step f c next vs ws e more rest =
      let nonempty : (next == "") ≡ false = ground (arith, eq_iff next "") in
      rw e (rw nonempty (rw rest refl))

  map-append : (xs ys : List A) → map show (xs ++ ys) ≡ map show xs ++ map show ys
  map-append [] ys = refl
  map-append (x ∷ xs) ys = ap (λ l. show x ∷ l) (map-append xs ys)

  walk-Suffix :
      ((a : A) → cursor a ≢ "")
      → (f : ℕ) (xs : List A) (c : String) → length xs < f
      → Suffix xs
      → serve c ≡ some (page_of show cursor n xs)
      → walk serve f c ≡ some (map show xs)
  walk-Suffix named zero xs c short s served = absurd (omega arith)
  walk-Suffix named (suc f) xs c short s served = elim (Bool-cases (ltb (suc n) (length xs))) [
    | inr e ↦
        let page : page_of show cursor n xs ≡ (map show (take (suc n) xs), "") = rw e refl in
        last_step f c _ (served ∙ ap (λ p. some p) page)
        ∙ ap (λ l. some (map show l)) (take_whole (suc n) xs e)
    | inl e ↦
        let (l, found) = elem_there n xs e in
        let (later, served') = Suffix-drop n xs l s found in
        let page : page_of show cursor n xs ≡ (map show (take (suc n) xs), cursor l) =
          rw (e, found) refl in
        let shorter = length-drop n xs (ground arith) in
        let ih = walk-Suffix named f (drop (suc n) xs) (cursor l) (omega arith) later served' in
        next_step f c (cursor l) _ _ (served ∙ ap (λ p. some p) page) (named l) ih
        ∙ ap (λ l. some l)
            (sym (map-append (take (suc n) xs) (drop (suc n) xs))
              ∙ ap (map show) (take-append-drop (suc n) xs))
  ]

  -- If the start is answered by the first page and each row's cursor by the page after the row, then
  -- a client that follows the cursors gets each row once, in order, with one request more than rows.
  pub walk_whole :
      (xs : List A)
      → ((a : A) → cursor a ≢ "")
      → IsAscending o xs
      → All (Serves xs) xs
      → serve "" ≡ some (page_of show cursor n xs)
      → walk serve (suc (length xs)) "" ≡ some (map show xs)
  walk_whole xs named asc served start =
      walk-Suffix named (suc (length xs)) xs "" (omega arith) (asc, served) start
