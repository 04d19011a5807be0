-- ===== src/Base/Maps.antt =====
-- `std::unordered_map` as an association list with at most one entry read for a key.
use mathlib.Core.Path.{◌≡◌, refl}
use mathlib.Core.Option.{Option, none, some}
use mathlib.Core.List.{List, [], ◌∷◌}
use native.Mathlib.Omega.{arith}
use udp_to_rabbitmq_gateway.Base.Compare.{Eq, ◌==◌, if◌then◌else◌}

abbrev pub Map : Type 0 → Type 0 → Type 0
Map K V = List (K × V)

module _ {K V : Type 0} ⦃keys : Eq K⦄ where
  unfoldable pub lookup : K → Map K V → Option V
  lookup key [] = none
  lookup key (entry ∷ rest) = if entry.0 == key then some entry.1 else lookup key rest

  -- `m[key] = value`
  unfoldable pub insert : K → V → Map K V → Map K V
  insert key value [] = (key, value) ∷ []
  insert key value (entry ∷ rest) =
      let later = insert key value rest in
      if entry.0 == key then (key, value) ∷ rest else entry ∷ later

  -- `m.erase(key)`
  unfoldable pub erase : K → Map K V → Map K V
  erase key [] = []
  erase key (entry ∷ rest) =
      let later = erase key rest in if entry.0 == key then later else entry ∷ later

  pub lookup-insert :
      (key other : K) (value : V) (entries : Map K V)
      → lookup other (insert key value entries)
        ≡ (if key == other then some value else lookup other entries)
  unfolding lookup insert
  lookup-insert key other value [] = refl
  lookup-insert key other value (entry ∷ rest) = ground (
    arith,
    lookup-insert key other value rest,
    keys.eqb_iff entry.0 key,
    keys.eqb_iff entry.0 other,
    keys.eqb_iff key other,
  )

  pub lookup-erase :
      (key other : K) (entries : Map K V)
      → lookup other (erase key entries) ≡ (if key == other then none else lookup other entries)
  unfolding lookup erase
  lookup-erase key other [] = ground arith
  lookup-erase key other (entry ∷ rest) = ground (
    arith,
    lookup-erase key other rest,
    keys.eqb_iff entry.0 key,
    keys.eqb_iff entry.0 other,
    keys.eqb_iff key other,
  )
