-- ===== src/Keyset/Texts.antt =====
-- Texts are ordered strictly and totally.
use Prim.Native.Char.{Char, code}
use Prim.Native.Nat.{compare as compare_ℕ, Ordering}
use Prim.Native.String.{compare, then}
use Prim.Native.String.compare as compared
use text.Mathlib.TextEquality.{path_by_compare}
use redesigned_disco.Prelude.{String, ◌≡◌, refl, true, false, arith, ◌≢◌}
use redesigned_disco.Keyset.{text_before}

cons :
    (c d : Char) (s t : String)
    → compare (String.◌∷◌ c s) (String.◌∷◌ d t) ≡ then (compare_ℕ (code c) (code d)) (compare s t)
cons c d s t = compared.cons-cons c d s t

before_empty : (s : String) → text_before s String.[] ≡ false
before_empty String.[] = refl
before_empty (String.◌∷◌ c s) =
    let e : compare (String.◌∷◌ c s) String.[] ≡ Ordering.gt = compared.cons-nil c s in ground arith

empty_before : (c : Char) (s : String) → text_before String.[] (String.◌∷◌ c s) ≡ true
empty_before c s =
    let e : compare String.[] (String.◌∷◌ c s) ≡ Ordering.lt = compared.nil-cons c s in ground arith

pub text_before_trans :
    (s t u : String) → text_before s t ≡ true → text_before t u ≡ true → text_before s u ≡ true
text_before_trans s t String.[] h k = ground (arith, before_empty t)
text_before_trans String.[] t (String.◌∷◌ e u) h k = empty_before e u
text_before_trans (String.◌∷◌ c s) String.[] (String.◌∷◌ e u) h k =
    ground (arith, before_empty (String.◌∷◌ c s))
text_before_trans (String.◌∷◌ c s) (String.◌∷◌ d t) (String.◌∷◌ e u) h k =
    ground (arith, cons c d s t, cons d e t u, cons c e s u, text_before_trans s t u)

pub text_before_asymm : (s t : String) → text_before s t ≡ true → text_before t s ≡ false
text_before_asymm s String.[] h = ground (arith, before_empty s)
text_before_asymm String.[] (String.◌∷◌ d t) h = before_empty (String.◌∷◌ d t)
text_before_asymm (String.◌∷◌ c s) (String.◌∷◌ d t) h =
    ground (arith, cons c d s t, cons d c t s, text_before_asymm s t)

compare_swap : (s t : String) → compare s t ≡ Ordering.gt → text_before t s ≡ true
compare_swap String.[] String.[] h =
    let e : compare String.[] String.[] ≡ Ordering.eq = compared.nil-nil in ground arith
compare_swap String.[] (String.◌∷◌ d t) h =
    let e : compare String.[] (String.◌∷◌ d t) ≡ Ordering.lt = compared.nil-cons d t in ground arith
compare_swap (String.◌∷◌ c s) String.[] h = empty_before c s
compare_swap (String.◌∷◌ c s) (String.◌∷◌ d t) h =
    ground (arith, cons c d s t, cons d c t s, compare_swap s t)

-- Of two different texts one comes before the other.
pub text_before_total : (s t : String) → text_before s t ≡ false → s ≢ t → text_before t s ≡ true
text_before_total s t h apart = by_order (compare s t) refl
  where
    by_order : (o : Ordering) → compare s t ≡ o → text_before t s ≡ true
    by_order Ordering.lt e = ground arith
    by_order Ordering.eq e = absurd (apart (path_by_compare s t e))
    by_order Ordering.gt e = compare_swap s t e
