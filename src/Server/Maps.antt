-- ===== src/Server/Maps.antt =====
-- The maps of the server: `std::unordered_map` with string keys as an association list, in whatever
-- order the map is iterated.
use mathlib.Core.Option
use shan_mqtt_broker.Base.{
  ◌≡◌, Option, none, some, is_some, List, [], ◌∷◌, Bytes, bytes_eq, bytes_eq_iff, arith,
  if◌then◌else◌,
}

module _ {ℓ} {V : Type ℓ} where
  -- `at`, which throws where the key is missing
  unfoldable pub at : Bytes → List (Bytes × V) → Option V
  at k [] = none
  at k ((j, v) ∷ m) = if bytes_eq j k then some v else at k m

  -- `insert(std::make_pair(k, v))`, which keeps an entry that is there
  unfoldable pub insert : Bytes → V → List (Bytes × V) → List (Bytes × V)
  unfolding at
  insert k v m = if is_some (at k m) then m else (k, v) ∷ m

  unfoldable pub erase : Bytes → List (Bytes × V) → List (Bytes × V)
  erase k [] = []
  erase k ((j, v) ∷ m) = let rest = erase k m in if bytes_eq j k then rest else (j, v) ∷ rest

  -- the object behind the pointer of an entry is changed
  unfoldable pub modify : Bytes → (V → V) → List (Bytes × V) → List (Bytes × V)
  modify k f [] = []
  modify k f ((j, v) ∷ m) =
      let rest = modify k f m in if bytes_eq j k then (j, f v) ∷ rest else (j, v) ∷ rest

  pub at-erase :
      (k j : Bytes) (m : List (Bytes × V))
      → at j (erase k m) ≡ (if bytes_eq k j then none else at j m)
  unfolding at erase
  at-erase k j [] = ground arith
  at-erase k j ((i, v) ∷ m) =
      ground (arith, bytes_eq_iff i k, bytes_eq_iff k j, bytes_eq_iff i j, at-erase k j m)

  pub at-modify :
      (k j : Bytes) (f : V → V) (m : List (Bytes × V))
      → at j (modify k f m) ≡ (if bytes_eq k j then Option.map f (at j m) else at j m)
  unfolding at modify
  at-modify k j f [] = ground arith
  at-modify k j f ((i, v) ∷ m) =
      ground (arith, bytes_eq_iff i k, bytes_eq_iff k j, bytes_eq_iff i j, at-modify k j f m)
