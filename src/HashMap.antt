-- ===== src/HashMap.antt =====
-- The standard library's `HashMap`, as the program uses it: an association list, one entry a key.
-- The program relies on no iteration order; the entries stand in the order of their insertion.
pub mod Laws
pub mod Entries
use play_evmone.Base.{Bool, true, false, Option, none, some, List, [], ◌∷◌, Eq, if◌then◌else◌}

pub record HashMap {ℓ κ} (K : Type ℓ) (V : Type κ) : Type (ℓ ⊔ κ) where
  pub entries : List (K × V)

-- `HashMap::default()`
unfoldable pub empty {ℓ κ} : {K : Type ℓ} {V : Type κ} → HashMap K V
empty = record { entries = [] }

abbrev pub is_some {ℓ} : {A : Type ℓ} → Option A → Bool
is_some none = false
is_some (some a) = true

abbrev pub found_or {ℓ} : {A : Type ℓ} → A → Option A → A
found_or fresh none = fresh
found_or fresh (some a) = a

module _ {ℓ κ} {K : Type ℓ} {V : Type κ} ⦃e : Eq K⦄ where
  lookup : K → List (K × V) → Option V
  lookup k [] = none
  lookup k ((j, v) ∷ m) = if e.beq j k then some v else lookup k m

  update : K → V → List (K × V) → List (K × V)
  update k v [] = (k, v) ∷ []
  update k v ((j, w) ∷ m) = if e.beq j k then (j, v) ∷ m else (j, w) ∷ update k v m

  without : K → List (K × V) → List (K × V)
  without k [] = []
  without k ((j, v) ∷ m) = let rest = without k m in if e.beq j k then rest else (j, v) ∷ rest

  -- `map.get(&k)`
  unfoldable pub get : K → HashMap K V → Option V
  unfolding lookup
  get k m = lookup k m.entries

  -- `map.contains_key(&k)`
  abbrev pub contains_key : K → HashMap K V → Bool
  contains_key k m = is_some (get k m)

  -- A write through the reference that `entry` returns, or `map.insert(k, v)`.
  unfoldable pub insert : K → V → HashMap K V → HashMap K V
  unfolding update
  insert k v m = record { entries = update k v m.entries }

  -- `map.remove(&k)`, the map that is left.
  unfoldable pub remove : K → HashMap K V → HashMap K V
  unfolding without
  remove k m = record { entries = without k m.entries }

  -- `map.entry(k).or_insert_with(f)`: the value that the reference points to. What the caller then
  -- writes through the reference is an `insert` of the changed value at `k`.
  abbrev pub or_insert_with : K → V → HashMap K V → V
  or_insert_with k fresh m = found_or fresh (get k m)
