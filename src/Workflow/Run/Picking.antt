-- ===== src/Workflow/Run/Picking.antt =====
-- What the steps of a run share: the handler that is picked and the others, and a step that is taken
-- only while the run runs.
use mathlib.Core.Path.{subst}
use redesigned_disco.Prelude.{
  ◌⊎◌, inl, inr, refl, Bool-cases, ℕ, zero, suc, Bool, true, false, ◌≡◌, Option, none, some, List,
  [], ◌∷◌, arith, All, if◌then◌else◌,
}
use redesigned_disco.Money.{Decimal}
use redesigned_disco.Models.{Time, AddLineItemInput}
use redesigned_disco.Workflow.{HandlerError, validate}
use redesigned_disco.Workflow.Run.{
  on_update, validated, is_running, Run, Handler, Reply, pick, put_back,
}

module _ {D : Type 0} where
  put_back-All :
      (P : Handler D → Type 0) (x : Handler D) (o : Option (Handler D × List (Handler D)))
      (h : Handler D) (rest : List (Handler D))
      → P x
      → ((h' : Handler D) (r : List (Handler D)) → o ≡ some (h', r) → P h' × All P r)
      → put_back x o ≡ some (h, rest)
      → P h × All P rest
  put_back-All P x none h rest p k e = cc
  put_back-All P x (some (h', r)) h rest p k e =
      let (q, qs) = k h' r refl in
      let e₁ : h' ≡ h = ground arith in
      let e₂ : x ∷ r ≡ rest = ground arith in (subst P e₁ q, subst (All P) e₂ (p, qs))

  -- What holds of all handlers holds of the one that is picked and of the others.
  pub pick-All :
      (P : Handler D → Type 0) (n : ℕ) (hs : List (Handler D)) (h : Handler D)
      (rest : List (Handler D))
      → All P hs
      → pick n hs ≡ some (h, rest)
      → P h × All P rest
  pick-All P n [] h rest a e = cc
  pick-All P zero (x ∷ hs) h rest a e =
      let e₁ : x ≡ h = ground arith in
      let e₂ : hs ≡ rest = ground arith in (subst P e₁ a.0, subst (All P) e₂ a.1)
  pick-All P (suc n) (x ∷ hs) h rest a e =
      put_back-All P x (pick n hs) h rest a.0 (λ h' r e'. pick-All P n hs h' r a.1 e') e

  pub if_either :
      (P : Run D → Type 0) (b : Bool) (x y : Run D × Reply D)
      → P x.0
      → P y.0
      → P (if b then x else y).0
  if_either P true x y h k = h
  if_either P false x y h k = k

module _ {D : Type 0} (d : Decimal D) (now : Time) where
  refused_or_valid :
      (r : Run D) (request : AddLineItemInput D) (o : Option HandlerError)
      → validate d r.bill request ≡ o
      → ((validated now r request o).0 ≡ r) ⊎ (validate d r.bill request ≡ none)
  refused_or_valid r request (some e) h = inl refl
  refused_or_valid r request none h = inr h

  -- An update leaves the run as it is, or the validator accepts it.
  pub unchanged_or_valid :
      (r : Run D) (request : AddLineItemInput D)
      → ((on_update d now request r).0 ≡ r) ⊎ (validate d r.bill request ≡ none)
  unfolding on_update
  unchanged_or_valid r request = elim (Bool-cases (is_running r.phase)) [
    | inl e ↦ rw e (refused_or_valid r request (validate d r.bill request) refl)
    | inr e ↦ inl (rw e refl)
  ]
