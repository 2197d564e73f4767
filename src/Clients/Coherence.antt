-- ===== src/Clients/Coherence.antt =====
-- The cache of clients through any interleaving of look-ups, evictions and invalidations.
use mathlib.Core.Path.{subst}
use mathlib.Core.Option.{some-injective}
use redesigned_disco.Prelude.{
  eq_refl, ℕ, String, Bool, ◌≡◌, refl, true, false, ◌⊎◌, inl, inr, ◌==◌, if◌then◌else◌, Option,
  none, some, List, [], ◌∷◌, eq_iff, Bool-cases, All, get_elem?, zero, suc, ap, sym, ◌∙◌,
}
use redesigned_disco.Errs.{Result, ok, err}
use redesigned_disco.Store.{Db, Client, connection}
use redesigned_disco.Clients.{
  Cached, miss, hit_nil, hit, CacheWrite, ClientError, client_not_found, load_failed, find_client,
  client_row, load_client_from_db, lookup_client, ClientCache, invalidate_client,
}

abbrev pub entry : Option Client → Cached
entry none = hit_nil
entry (some c) = hit c

-- After an addition each id finds what it found, or nothing (the cache is small and expires), or, if
-- it is the one, what was added.
abbrev pub Added : CacheWrite → ClientCache → ClientCache → Type 0
Added w old new =
    (k : String) → (new k ≡ old k) ⊎ (new k ≡ miss) ⊎ ((k ≡ w.id) × (new k ≡ entry w.client))

abbrev pub cold_cache : ClientCache
cold_cache k = miss

-- The cache that knows one id to be unknown.
abbrev pub knows_unknown : String → ClientCache
knows_unknown id k = if k == id then hit_nil else miss

module _ {D : Type 0} (db : Db D) where
  -- The table holds what the cache says.
  abbrev pub IsTrue : String → Cached → Type 0
  IsTrue k miss = Unit
  IsTrue k hit_nil = find_client k db.clients ≡ none
  IsTrue k (hit c) = find_client k db.clients ≡ some c

  abbrev pub IsCoherent : ClientCache → Type 0
  IsCoherent cache = (k : String) → IsTrue k (cache k)

  -- A look-up whose two looks found these entries.
  abbrev pub looked_up :
      Bool → String → Cached → Cached → Result ClientError (Option Client) × List CacheWrite
  looked_up answers id first second =
      lookup_client id first second (load_client_from_db answers id db)

  -- The caches there were, the newest first: a cold one; entries lost to eviction, expiry or an
  -- invalidation; an addition by a look-up, whose two looks were at any caches that there were.
  pub data History : List ClientCache → Type 0 where
    cold : (c : ClientCache) → ((k : String) → c k ≡ miss) → History (c ∷ [])
    lost :
        (cs : List ClientCache) (old new : ClientCache)
        → History (old ∷ cs)
        → ((k : String) → (new k ≡ old k) ⊎ (new k ≡ miss))
        → History (new ∷ old ∷ cs)
    added :
        (cs : List ClientCache) (old new : ClientCache) (m n : ℕ) (c₁ c₂ : ClientCache)
        (answers : Bool) (id : String) (w : CacheWrite)
        → History (old ∷ cs)
        → get_elem? (old ∷ cs) m ≡ some c₁
        → get_elem? (old ∷ cs) n ≡ some c₂
        → (looked_up answers id (c₁ id) (c₂ id)).1 ≡ w ∷ []
        → Added w old new
        → History (new ∷ old ∷ cs)

  -- What a look-up may answer, given what its looks found.
  abbrev pub Told : Bool → String → Cached → Cached → Result ClientError (Option Client) → Type 0
  Told answers id first second (ok (some c)) = find_client id db.clients ≡ some c
  Told answers id first second (ok none) =
      (find_client id db.clients ≡ none) × (first ≡ miss) × (second ≡ hit_nil)
  Told answers id first second (err client_not_found) = find_client id db.clients ≡ none
  Told answers id first second (err (load_failed e)) =
      (first ≡ miss) × (second ≡ miss) × (answers ≡ false)

  abbrev IsTrueWrite : CacheWrite → Type 0
  IsTrueWrite w = find_client w.id db.clients ≡ w.client

  loaded_truth :
      (answers : Bool) (id : String) (row : Option Client)
      → find_client id db.clients ≡ row
      → let (r, writes) =
          lookup_client id miss miss (if answers then client_row row else err connection) in
        Told answers id miss miss r × All IsTrueWrite writes
  unfolding lookup_client
  loaded_truth false id row e = ((refl, refl, refl), tt)
  loaded_truth true id none e = (e, (e, tt))
  loaded_truth true id (some c) e = (e, (e, tt))

  looked_up-Told :
      (answers : Bool) (id : String) (first second : Cached)
      → IsTrue id first
      → IsTrue id second
      → let (r, writes) = looked_up answers id first second in
        Told answers id first second r × All IsTrueWrite writes
  unfolding lookup_client load_client_from_db
  looked_up-Told answers id (hit c) second h k = (h, tt)
  looked_up-Told answers id hit_nil second h k = (h, tt)
  looked_up-Told answers id miss (hit c) h k = (k, tt)
  looked_up-Told answers id miss hit_nil h k = ((k, refl, refl), tt)
  looked_up-Told answers id miss miss h k = loaded_truth answers id _ refl

  IsTrue-entry :
      (k : String) (c : Option Client) → find_client k db.clients ≡ c → IsTrue k (entry c)
  IsTrue-entry k none e = e
  IsTrue-entry k (some c) e = e

  IsTrue-lost : (k : String) (o n : Cached) → (n ≡ o) ⊎ (n ≡ miss) → IsTrue k o → IsTrue k n
  IsTrue-lost k o n (inl e) h = subst (IsTrue k) (sym e) h
  IsTrue-lost k o n (inr e) h = subst (IsTrue k) (sym e) tt

  IsTrue-added :
      (k : String) (w : CacheWrite) (o n : Cached)
      → (n ≡ o) ⊎ (n ≡ miss) ⊎ ((k ≡ w.id) × (n ≡ entry w.client))
      → IsTrueWrite w
      → IsTrue k o
      → IsTrue k n
  IsTrue-added k w o n (inl e) t h = subst (IsTrue k) (sym e) h
  IsTrue-added k w o n (inr (inl e)) t h = subst (IsTrue k) (sym e) tt
  IsTrue-added k w o n (inr (inr (here, e))) t h =
      subst (IsTrue k) (sym e)
        (IsTrue-entry k w.client (ap (λ x. find_client x db.clients) here ∙ t))

  one_of :
      (cs : List ClientCache) (n : ℕ) (c : ClientCache)
      → All IsCoherent cs
      → get_elem? cs n ≡ some c
      → IsCoherent c
  one_of [] n c a e = cc
  one_of (x ∷ xs) zero c a e = subst IsCoherent (some-injective _ _ e) a.0
  one_of (x ∷ xs) (suc n) c a e = one_of xs n c a.1 e

  only : (w : CacheWrite) (ws : List CacheWrite) → All IsTrueWrite ws → ws ≡ w ∷ [] → IsTrueWrite w
  only w ws a e = (subst (All IsTrueWrite) e a).0

  -- Every cache that there is in a history says what the table holds.
  History-IsCoherent : (cs : List ClientCache) → History cs → All IsCoherent cs
  History-IsCoherent cs (cold c e) = (λ k. subst (IsTrue k) (sym (e k)) tt, tt)
  History-IsCoherent cs (lost rest old new h f) =
      let all = History-IsCoherent (old ∷ rest) h in
      (λ k. IsTrue-lost k (old k) (new k) (f k) (all.0 k), all)
  History-IsCoherent cs (added rest old new m n c₁ c₂ answers id w h e₁ e₂ written f) =
      let all = History-IsCoherent (old ∷ rest) h in
      let first = one_of (old ∷ rest) m c₁ all e₁ id in
      let second = one_of (old ∷ rest) n c₂ all e₂ id in
      let true_write =
        only w _ (looked_up-Told answers id (c₁ id) (c₂ id) first second).1 written in
      (λ k. IsTrue-added k w (old k) (new k) (f k) true_write (all.0 k), all)

  -- While the clients table does not change, and however look-ups, evictions, expiries and
  -- invalidations interleave from a cold cache on, a look-up whose two looks fall anywhere in between
  -- answers with the client of the id as the table has it, or that there is none, or with the error of
  -- a load that did not answer; or with nil and no error where there is none, if its first look found
  -- nothing and its second one the entry of an unknown id. And each cache says what the table holds.
  pub lookup_client-Told :
      (cs : List ClientCache) (m n : ℕ) (c₁ c₂ : ClientCache) (answers : Bool) (id : String)
      → History cs
      → get_elem? cs m ≡ some c₁
      → get_elem? cs n ≡ some c₂
      → All IsCoherent cs × Told answers id (c₁ id) (c₂ id) (looked_up answers id (c₁ id) (c₂ id)).0
  lookup_client-Told cs m n c₁ c₂ answers id h e₁ e₂ =
      let all = History-IsCoherent cs h in
      (
        all,
        (looked_up-Told answers id (c₁ id) (c₂ id) (one_of cs m c₁ all e₁ id)
            (one_of cs n c₂ all e₂ id)).0,
      )

  -- An invalidation only loses entries.
  pub History-invalidate_client :
      (id : String) (old : ClientCache) (cs : List ClientCache)
      → History (old ∷ cs)
      → History (invalidate_client id old ∷ old ∷ cs)
  unfolding invalidate_client
  History-invalidate_client id old cs h =
      lost cs old (invalidate_client id old) h (λ k. kept_or_lost k)
    where
      kept_or_lost :
          (k : String) → (invalidate_client id old k ≡ old k) ⊎ (invalidate_client id old k ≡ miss)
      kept_or_lost k = elim (Bool-cases (k == id)) [
        | inl e ↦ inr (rw e refl)
        | inr e ↦ inl (rw e refl)
      ]

  -- Two look-ups of one unknown id: the first one's first look is at the cold cache; the second one
  -- runs to its end and caches the miss; the first one's second look finds that, and it answers with
  -- nil and no error. This is a history that can happen.
  pub unknown_id_race :
      (id : String) (answers : Bool)
      → find_client id db.clients ≡ none
      → History (knows_unknown id ∷ cold_cache ∷ [])
        × ((looked_up answers id (cold_cache id) (knows_unknown id id)).0 ≡ ok none)
  unfolding lookup_client load_client_from_db
  unknown_id_race id answers absent = (
    added [] cold_cache (knows_unknown id) 0 0 cold_cache cold_cache true id
        (record { id = id; client = none }) (cold cold_cache (λ k. refl)) refl refl (rw absent refl)
        added_here,
    rw (eq_refl id) refl,
  )
    where
      added_here : Added (record { id = id; client = none }) cold_cache (knows_unknown id)
      added_here k = elim (Bool-cases (k == id)) [
        | inl e ↦ inr (inr ((eq_iff k id).0 e, rw e refl))
        | inr e ↦ inl (rw e refl)
      ]
