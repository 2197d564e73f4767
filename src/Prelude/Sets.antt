-- ===== src/Prelude/Sets.antt =====
-- Sets of texts kept as lists: no text twice, and what one more text does.
use Prim.Native.String.{String}
use mathlib.Core.Path.{◌≡◌, refl}
use mathlib.Core.Logic.{◌≢◌}
use mathlib.Core.Bool.{false, ◌||◌}
use mathlib.Core.List.{List, [], ◌∷◌, ◌++◌, map}
use native.Mathlib.Omega.{arith}
use text.Mathlib.TextEquality.{eq_iff}
use redesigned_disco.Prelude.Lists.{contains, All}

-- No text is listed twice.
abbrev pub Distinct : List String → Type 0
Distinct [] = Unit
Distinct (x ∷ xs) = (contains xs x ≡ false) × Distinct xs

pub contains-append :
    (xs ys : List String) (k : String) → contains (xs ++ ys) k ≡ (contains xs k || contains ys k)
contains-append [] ys k = refl
contains-append (x ∷ xs) ys k = ground (arith, contains-append xs ys k)

pub Distinct-last :
    (xs : List String) (k : String) → Distinct xs → contains xs k ≡ false → Distinct (xs ++ k ∷ [])
Distinct-last [] k d h = (refl, tt)
Distinct-last (x ∷ xs) k d h = (
  ground (arith, contains-append xs (k ∷ []) x, eq_iff k x, eq_iff x k),
  Distinct-last xs k d.1 (ground arith),
)

pub contains-apart {ℓ} :
    {A : Type ℓ} (id : A → String) (xs : List A) (k : String)
    → contains (map id xs) k ≡ false
    → All (λ x. k ≢ id x) xs
contains-apart id [] k h = tt
contains-apart id (x ∷ xs) k h = (differ, contains-apart id xs k (ground arith))
  where
    differ : k ≢ id x
    differ e = ground (arith, eq_iff (id x) k)
