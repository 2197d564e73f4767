-- ===== src/Views/Laws.antt =====
-- What the parser of amounts accepts.
use redesigned_disco.Prelude.{String, true, ◌≡◌, ◌≢◌, Option, none, some, arith, eq_iff, ◌↔◌}
use redesigned_disco.Errs.{ok}
use redesigned_disco.Money.{Decimal}
use redesigned_disco.Views.{parse_amount, checked_amount}

module _ {D : Type 0} (d : Decimal D) where
  checked_ok :
      (o : Option D) (a : D)
      → (checked_amount d o ≡ ok a) ↔ ((o ≡ some a) × (d.is_positive a ≡ true))
  checked_ok none a = (λ h. cc, λ h. cc)
  checked_ok (some b) a = (ground arith, ground arith)

  -- An amount is accepted exactly if its text is not empty, reads as a decimal and is positive, and
  -- the value is what the text reads as.
  pub parse_amount-accepts :
      (s : String) (a : D)
      → (parse_amount d s ≡ ok a) ↔ ((s ≢ "") × (d.of_text s ≡ some a) × (d.is_positive a ≡ true))
  unfolding parse_amount
  parse_amount-accepts s a = (
    ground (arith, eq_iff s "", checked_ok (d.of_text s) a),
    ground (arith, eq_iff s "", checked_ok (d.of_text s) a),
  )
