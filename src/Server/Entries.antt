-- ===== src/Server/Entries.antt =====
-- What holds of every entry of one of the server's maps (player/mqtt_server.h), with each key once.
use mathlib.Core.Option
use shan_mqtt_broker.Base.{
  subst, ◌≡◌, true, false, Option, none, some, is_some, List, [], ◌∷◌, Bytes, bytes_eq, bytes_eq→eq,
  Bool-cases, inl, inr, refl, arith,
}
use shan_mqtt_broker.Server.Maps.{at, insert, erase, modify, at-erase, at-modify}

module _ {V : Type 0} where
  abbrev pub Entries : (Bytes → V → Type 0) → List (Bytes × V) → Type 0
  Entries P [] = Unit {0}
  Entries P ((k, v) ∷ m) = P k v × (is_some (at k m) ≡ false) × Entries P m

  absent-erase :
      (j k : Bytes) (m : List (Bytes × V))
      → is_some (at j m) ≡ false
      → is_some (at j (erase k m)) ≡ false
  absent-erase j k m h = ground (arith, at-erase k j m)

  is_some-map : (f : V → V) (o : Option V) → is_some (Option.map f o) ≡ is_some o
  is_some-map f none = refl
  is_some-map f (some v) = refl

  absent-modify :
      (j k : Bytes) (f : V → V) (m : List (Bytes × V))
      → is_some (at j m) ≡ false
      → is_some (at j (modify k f m)) ≡ false
  absent-modify j k f m h = ground (arith, at-modify k j f m, is_some-map f (at j m))

  at_here :
      (j k : Bytes) (w v : V) (m : List (Bytes × V))
      → bytes_eq j k ≡ true
      → at k ((j, w) ∷ m) ≡ some v
      → w ≡ v
  unfolding at
  at_here j k w v m b e = ground arith

module _ {V : Type 0} (P : Bytes → V → Type 0) where
  pub at-Entries :
      (m : List (Bytes × V)) (k : Bytes) (v : V) → Entries P m → at k m ≡ some v → P k v
  unfolding at
  at-Entries [] k v h e = absurd cc
  at-Entries ((j, w) ∷ m) k v h e = elim (Bool-cases (bytes_eq j k)) [
    | inl b ↦ subst (λ k. P k v) (bytes_eq→eq j k b) (subst (P j) (at_here j k w v m b e) h.0)
    | inr b ↦ at-Entries m k v h.2 (ground (arith, b, e))
  ]

  pub erase-Entries : (k : Bytes) (m : List (Bytes × V)) → Entries P m → Entries P (erase k m)
  unfolding erase
  erase-Entries k [] h = tt
  erase-Entries k ((j, v) ∷ m) h = elim (Bool-cases (bytes_eq j k)) [
    | inl b ↦ rw b (erase-Entries k m h.2)
    | inr b ↦ rw b (h.0, absent-erase j k m h.1, erase-Entries k m h.2)
  ]

  pub modify-Entries :
      (k : Bytes) (f : V → V) (m : List (Bytes × V))
      → ((j : Bytes) (v : V) → P j v → P j (f v))
      → Entries P m
      → Entries P (modify k f m)
  unfolding modify
  modify-Entries k f [] p h = tt
  modify-Entries k f ((j, v) ∷ m) p h = elim (Bool-cases (bytes_eq j k)) [
    | inl b ↦ rw b (p j v h.0, absent-modify j k f m h.1, modify-Entries k f m p h.2)
    | inr b ↦ rw b (h.0, absent-modify j k f m h.1, modify-Entries k f m p h.2)
  ]

  pub insert-Entries :
      (k : Bytes) (v : V) (m : List (Bytes × V)) → P k v → Entries P m → Entries P (insert k v m)
  unfolding insert
  insert-Entries k v m p h = elim (Bool-cases (is_some (at k m))) [
    | inl b ↦ rw b h
    | inr b ↦ rw b (p, b, h)
  ]

  pub map-Entries :
      (Q : Bytes → V → Type 0) (m : List (Bytes × V))
      → ((k : Bytes) (v : V) → P k v → Q k v)
      → Entries P m
      → Entries Q m
  map-Entries Q [] f h = tt
  map-Entries Q ((k, v) ∷ m) f h = (f k v h.0, h.1, map-Entries Q m f h.2)
