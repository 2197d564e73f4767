-- ===== src/Workflow/Contract.antt =====
-- What a bill is for, without the workflow, the activities and the tables: an account that takes
-- each line item once while it is open, and nothing once it is closed. It is what the comments of
-- `BillingWorkflow` (bill/workflow.go) and README.md promise.
use mathlib.Core.Path.{subst}
use redesigned_disco.Prelude.{
  String, true, false, ◌≡◌, refl, sym, ◌∙◌, List, [], ◌∷◌, map, contains, Distinct,
}
use redesigned_disco.Money.{Decimal}
use redesigned_disco.Models.{BillStatus, open_bill, closed_bill}

pub record Entry (D : Type 0) : Type 0 where
  pub id : String
  pub amount : D

-- The entries, latest first.
pub record Account (D : Type 0) : Type 0 where
  pub entries : List (Entry D)
  pub status : BillStatus

module _ {D : Type 0} where
  abbrev pub new_account : Account D
  new_account = record { entries = []; status = open_bill }

  abbrev pub total : Decimal D → List (Entry D) → D
  total d [] = d.nil
  total d (e ∷ es) = d.add (total d es) e.amount

  abbrev pub ids : List (Entry D) → List String
  ids es = map (λ e. e.id) es

-- Nothing happens, an entry is taken, or the account is closed.
pub data Moves {D : Type 0} (d : Decimal D) : Account D → Account D → Type 0 where
  idle : (a b : Account D) → b ≡ a → Moves d a b
  takes :
      (a b : Account D) (e : Entry D)
      → a.status ≡ open_bill
      → contains (ids a.entries) e.id ≡ false
      → d.is_positive e.amount ≡ true
      → b ≡ record a { entries = e ∷ a.entries }
      → Moves d a b
  closes :
      (a b : Account D) → a.status ≡ open_bill → b ≡ record a { status = closed_bill } → Moves d a b

-- Any number of moves.
pub data Reaches {D : Type 0} (d : Decimal D) : Account D → Account D → Type 0 where
  here : (a : Account D) → Reaches d a a
  via : (a b c : Account D) → Moves d a b → Reaches d b c → Reaches d a c

module _ {D : Type 0} (d : Decimal D) where
  -- What a closed account and the ids of an account keep.
  pub record IsKept (a b : Account D) : Type 0 where
    pub frozen : a.status ≡ closed_bill → b ≡ a
    pub distinct : Distinct (ids a.entries) → Distinct (ids b.entries)

  not_both_ways : (s : BillStatus) → s ≡ open_bill → s ≡ closed_bill → ⊥
  not_both_ways s h k = cc

  Moves-IsKept : (a b : Account D) → Moves d a b → IsKept a b
  Moves-IsKept a b (idle _ _ e) = record {
    frozen = λ h. e;
    distinct = λ h. subst (λ (x : Account D). Distinct (ids x.entries)) (sym e) h;
  }
  Moves-IsKept a b (takes _ _ x op new pos e) = record {
    frozen = λ h. absurd (not_both_ways a.status op h);
    distinct = λ h. subst (λ (y : Account D). Distinct (ids y.entries)) (sym e) (new, h);
  }
  Moves-IsKept a b (closes _ _ op e) = record {
    frozen = λ h. absurd (not_both_ways a.status op h);
    distinct = λ h. subst (λ (x : Account D). Distinct (ids x.entries)) (sym e) h;
  }

  IsKept-trans : (a b c : Account D) → IsKept a b → IsKept b c → IsKept a c
  IsKept-trans a b c h k = record {
    frozen = λ e.
        let same = h.frozen e in
        k.frozen (subst (λ (x : Account D). x.status ≡ closed_bill) (sym same) e) ∙ same;
    distinct = λ e. k.distinct (h.distinct e);
  }

  -- A closed account stays as it is, and no id is entered twice.
  pub Reaches-IsKept : (a b : Account D) → Reaches d a b → IsKept a b
  Reaches-IsKept a b (here _) = record { frozen = λ h. refl; distinct = λ h. h }
  Reaches-IsKept a c (via _ b _ m r) =
      IsKept-trans a b c (Moves-IsKept a b m) (Reaches-IsKept b c r)
