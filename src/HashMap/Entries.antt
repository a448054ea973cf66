-- ===== src/HashMap/Entries.antt =====
-- Predicates on the keys and the values of a map.
use play_evmone.Base.{Option, none, some, List, [], ◌∷◌, All, Eq, true, false, if◌then◌else◌}
use play_evmone.HashMap.{HashMap, get, insert, or_insert_with, lookup, update, found_or, empty}

module _ {K V : Type 0} ⦃e : Eq K⦄ (P : K → Type 0) (Q : V → Type 0) where
  abbrev pub AllEntries : HashMap K V → Type 0
  AllEntries m = All (λ r. P r.0 × Q r.1) m.entries

  -- A value that may be there.
  abbrev pub Holds : Option V → Type 0
  Holds none = Unit
  Holds (some v) = Q v

  pub AllEntries-empty : AllEntries empty
  unfolding empty
  AllEntries-empty = tt

  update-All :
      (k : K) (v : V) (l : List (K × V))
      → P k
      → Q v
      → All (λ r. P r.0 × Q r.1) l
      → All (λ r. P r.0 × Q r.1) (update k v l)
  unfolding update
  update-All k v [] p q h = ((p, q), tt)
  update-All k v ((j, w) ∷ l) p q h =
      elim (e.beq j k)
        as (λ b. All (λ r. P r.0 × Q r.1) (if b then (j, v) ∷ l else (j, w) ∷ update k v l)) [
          | true ↦ ((h.0.0, q), h.1)
          | false ↦ (h.0, update-All k v l p q h.1)
        ]

  pub insert-AllEntries :
      (k : K) (v : V) (m : HashMap K V) → P k → Q v → AllEntries m → AllEntries (insert k v m)
  unfolding insert
  insert-AllEntries k v m p q h = update-All k v m.entries p q h

  lookup-Holds : (k : K) (l : List (K × V)) → All (λ r. P r.0 × Q r.1) l → Holds (lookup k l)
  unfolding lookup
  lookup-Holds k [] h = tt
  lookup-Holds k ((j, w) ∷ l) h =
      elim (e.beq j k) as (λ b. Holds (if b then some w else lookup k l)) [
        | true ↦ h.0.1
        | false ↦ lookup-Holds k l h.1
      ]

  pub get-Holds : (k : K) (m : HashMap K V) → AllEntries m → Holds (get k m)
  unfolding get
  get-Holds k m h = lookup-Holds k m.entries h

  pub or_insert_with-Holds :
      (k : K) (fresh : V) (m : HashMap K V) → Q fresh → AllEntries m → Q (or_insert_with k fresh m)
  or_insert_with-Holds k fresh m q h = go (get k m) (get-Holds k m h)
    where
      go : (o : Option V) → Holds o → Q (found_or fresh o)
      go none h = q
      go (some v) h = h
