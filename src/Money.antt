-- ===== src/Money.antt =====
-- What the service uses of github.com/shopspring/decimal, and of the column types of Postgres that
-- its values pass through (UUID, NUMERIC(30, 10)). Neither is in the repository, so both are
-- interfaces: operations, and the documented laws that the proofs rely on.
use redesigned_disco.Prelude.{ℕ, String, ◌≡◌, ◌⊎◌, Bool, true, false, Option, none, some}

-- `decimal.Decimal`, up to its `Equal`.
pub record Decimal (D : Type 0) : Type 0 where
  pub nil : D  -- the zero value, and SQL's 0
  pub add : D → D → D
  pub is_positive : D → Bool
  pub to_text : D → String  -- String()
  pub string_fixed : D → ℕ → String
  pub of_text : String → Option D  -- NewFromString
  pub add_comm : (a b : D) → add a b ≡ add b a
  pub add_assoc : (a b c : D) → add (add a b) c ≡ add a (add b c)
  pub nil-add : (a : D) → add nil a ≡ a
  pub nil_not_positive : is_positive nil ≡ false
  pub add_positive :
      (a b : D) → is_positive a ≡ true → is_positive b ≡ true → is_positive (add a b) ≡ true

-- Zero or more.
abbrev pub NonNegative : {D : Type 0} → Decimal D → D → Type 0
NonNegative d a = (a ≡ d.nil) ⊎ (d.is_positive a ≡ true)

-- How Postgres reads a text as a UUID (`none`: invalid input syntax; else the canonical form), and
-- what a value becomes in a NUMERIC(30, 10) column (`none`: overflow; else rounded to 10 places,
-- halves away from zero).
pub record Postgres (D : Type 0) (d : Decimal D) : Type 0 where
  pub uuid : String → Option String
  pub numeric : D → Option D
  pub uuid_idem : (s u : String) → uuid s ≡ some u → uuid u ≡ some u
  pub uuid-empty : uuid "" ≡ none
  pub numeric_idem : (a b : D) → numeric a ≡ some b → numeric b ≡ some b
  pub numeric-nil : numeric d.nil ≡ some d.nil
  -- Adding to a value of the column and rounding is rounding first, from zero upwards.
  pub numeric-add :
      (t a b s : D)
      → NonNegative d t
      → d.is_positive b ≡ true
      → numeric t ≡ some t
      → numeric a ≡ some b
      → numeric (d.add t a) ≡ some s
      → s ≡ d.add t b
