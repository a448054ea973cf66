-- ===== src/HashMap/Laws.antt =====
-- The laws of the map, in the form that has no side condition.
use play_evmone.Base.{◌≡◌, refl, true, none, some, List, [], ◌∷◌, arith, Eq, if◌then◌else◌}
use play_evmone.HashMap.{HashMap, empty, lookup, update, without, get, insert, remove}

pub beq_refl {ℓ} : {K : Type ℓ} ⦃e : Eq K⦄ (k : K) → e.beq k k ≡ true
beq_refl ⦃e⦄ k = (e.beq_iff k k).1 refl

pub get-empty {ℓ κ} :
    {K : Type ℓ} {V : Type κ} ⦃e : Eq K⦄ (k : K) → get k (empty {K = K} {V = V}) ≡ none
unfolding get empty
get-empty k = refl

module _ {ℓ κ} {K : Type ℓ} {V : Type κ} ⦃e : Eq K⦄ where
  lookup-update :
      (k j : K) (v : V) (m : List (K × V))
      → lookup j (update k v m) ≡ (if e.beq k j then some v else lookup j m)
  unfolding lookup update
  lookup-update k j v [] = refl
  lookup-update k j v ((i, w) ∷ m) =
      ground (arith, e.beq_iff k j, e.beq_iff i k, e.beq_iff i j, lookup-update k j v m)

  lookup-without :
      (k j : K) (m : List (K × V))
      → lookup j (without k m) ≡ (if e.beq k j then none else lookup j m)
  unfolding lookup without
  lookup-without k j [] = ground arith
  lookup-without k j ((i, w) ∷ m) =
      ground (arith, e.beq_iff k j, e.beq_iff i k, e.beq_iff i j, lookup-without k j m)

  pub get-insert :
      (k j : K) (v : V) (m : HashMap K V)
      → get j (insert k v m) ≡ (if e.beq k j then some v else get j m)
  unfolding get insert
  get-insert k j v m = lookup-update k j v m.entries

  pub get-remove :
      (k j : K) (m : HashMap K V) → get j (remove k m) ≡ (if e.beq k j then none else get j m)
  unfolding get remove
  get-remove k j m = lookup-without k j m.entries

pub ruleset map_laws = (get-empty, get-insert, get-remove)
