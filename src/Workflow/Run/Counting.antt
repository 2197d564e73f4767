-- ===== src/Workflow/Run/Counting.antt =====
-- The running summary of one run: what it counts if no two updates for one item id are in flight
-- together, and what it counts if they are.
use mathlib.Core.Path.{subst}
use redesigned_disco.Prelude.{
  ℕ, zero, suc, String, true, false, ◌≡◌, refl, ap, Option, none, some, List, [], ◌∷◌, ◌++◌, map,
  arith, length, contains, All, Distinct, eq_iff, eq_refl,
}
use redesigned_disco.Workflow.Run.{Run, Handler, pick, put_back}

module _ {D : Type 0} where
  abbrev pub in_flight : List (Handler D) → List String
  in_flight hs = map (λ h. h.update.item_id) hs

-- The count is the number of different item ids that were counted, and the handlers in flight are
-- for ids that were not, each its own.
pub record IsCounted {D : Type 0} (r : Run D) : Type 0 where
  pub count : r.bill.item_count ≡ length r.seen
  pub once : Distinct r.seen
  pub apart : All (λ h. contains r.seen h.update.item_id ≡ false) r.pending
  pub separate : Distinct (in_flight r.pending)

module _ {D : Type 0} where
  pub in_flight-last :
      (hs : List (Handler D)) (h : Handler D)
      → in_flight (hs ++ h ∷ []) ≡ in_flight hs ++ h.update.item_id ∷ []
  in_flight-last [] h = refl
  in_flight-last (x ∷ hs) h = ap (λ l. x.update.item_id ∷ l) (in_flight-last hs h)

  -- What is left when one handler is picked.
  pub record Picked (P : Handler D → Type 0) (h : Handler D) (hs rest : List (Handler D))
      : Type 0 where
    pub picked : P h
    pub others : All P rest
    pub alone : contains (in_flight rest) h.update.item_id ≡ false
    pub separate : Distinct (in_flight rest)
    pub fewer :
        (k : String) → contains (in_flight hs) k ≡ false → contains (in_flight rest) k ≡ false
    pub there : contains (in_flight hs) h.update.item_id ≡ true

  module _ (P : Handler D → Type 0) where
    Picked-later :
        (x : Handler D) (hs : List (Handler D)) (o : Option (Handler D × List (Handler D)))
        (h : Handler D) (rest : List (Handler D))
        → P x
        → contains (in_flight hs) x.update.item_id ≡ false
        → ((h' : Handler D) (r : List (Handler D)) → o ≡ some (h', r) → Picked P h' hs r)
        → put_back x o ≡ some (h, rest)
        → Picked P h (x ∷ hs) rest
    Picked-later x hs none h rest p a k e = cc
    Picked-later x hs (some (h', r)) h rest p a k e =
        let q = k h' r refl in
        let e₁ : h' ≡ h = ground arith in
        let e₂ : x ∷ r ≡ rest = ground arith in
        subst (λ l. Picked P h (x ∷ hs) l) e₂
          (subst (λ y. Picked P y (x ∷ hs) (x ∷ r)) e₁
            (record {
              picked = q.picked;
              others = (p, q.others);
              alone = ground (arith, q.alone, q.there, eq_iff x.update.item_id h'.update.item_id);
              separate = (q.fewer x.update.item_id a, q.separate);
              fewer = λ i f. ground (arith, q.fewer i);
              there = ground (arith, q.there);
            }))

    pub pick-Picked :
        (n : ℕ) (hs : List (Handler D)) (h : Handler D) (rest : List (Handler D))
        → All P hs
        → Distinct (in_flight hs)
        → pick n hs ≡ some (h, rest)
        → Picked P h hs rest
    pick-Picked n [] h rest a s e = cc
    pick-Picked zero (x ∷ hs) h rest a s e =
        let e₁ : x ≡ h = ground arith in
        let e₂ : hs ≡ rest = ground arith in
        subst (λ l. Picked P h (x ∷ hs) l) e₂
          (subst (λ y. Picked P y (x ∷ hs) hs) e₁
            (record {
              picked = a.0;
              others = a.1;
              alone = s.0;
              separate = s.1;
              fewer = λ i f. ground arith;
              there = ground (arith, eq_refl x.update.item_id);
            }))
    pick-Picked (suc n) (x ∷ hs) h rest a s e =
        Picked-later x hs (pick n hs) h rest a.0 s.0 (λ h' r e'. pick-Picked n hs h' r a.1 s.1 e') e
