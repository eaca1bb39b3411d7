-- ===== src/Common/Dict.antt =====
-- `std::map` with text keys: an association list in key order, as the loops over it visit it.
-- Where the key stands already the value is replaced, else the entry goes to its place in the order.
use Prim.Native.String.{compare}
use text.Mathlib.Text.{is_lt}
use quant_forge_quant_resear.Common.{
  String, ◌≡◌, refl, inl, inr, Bool, true, false, Option, none, some, List, [], ◌∷◌, arith, str_eq,
  eq_iff, if◌then◌else◌, Bool-cases,
}

abbrev pub Dict {ℓ} : Type ℓ → Type ℓ
Dict V = List (String × V)

abbrev pub precedes : String → String → Bool
precedes k j = is_lt (compare k j)

module _ {ℓ} {V : Type ℓ} where
  unfoldable pub lookup : String → Dict V → Option V
  lookup k [] = none
  lookup k ((j, v) ∷ m) = if str_eq j k then some v else lookup k m

  unfoldable pub contains : String → Dict V → Bool
  contains k [] = false
  contains k ((j, v) ∷ m) = if str_eq j k then true else contains k m

  replace : String → V → Dict V → Dict V
  replace k v [] = []
  replace k v ((j, w) ∷ m) = if str_eq j k then (j, v) ∷ replace k v m else (j, w) ∷ replace k v m

  place : String → V → Dict V → Dict V
  place k v [] = (k, v) ∷ []
  place k v ((j, w) ∷ m) = if precedes k j then (k, v) ∷ (j, w) ∷ m else (j, w) ∷ place k v m

  unfoldable pub insert : String → V → Dict V → Dict V
  unfolding contains replace place
  insert k v m = if contains k m then replace k v m else place k v m

  unfoldable pub erase : String → Dict V → Dict V
  erase k [] = []
  erase k ((j, v) ∷ m) = if str_eq j k then erase k m else (j, v) ∷ erase k m

  -- No key stands twice.
  abbrev pub IsUnique : Dict V → Type ℓ
  IsUnique [] = Unit
  IsUnique ((k, v) ∷ m) = (lookup k m ≡ none) × IsUnique m

  pub contains-lookup : (k : String) (m : Dict V) → contains k m ≡ false → lookup k m ≡ none
  unfolding lookup contains
  contains-lookup k [] h = refl
  contains-lookup k ((j, v) ∷ m) h = ground (arith, contains-lookup k m)

  pub lookup-contains : (k : String) (m : Dict V) → lookup k m ≡ none → contains k m ≡ false
  unfolding lookup contains
  lookup-contains k [] h = refl
  lookup-contains k ((j, v) ∷ m) h = ground (arith, lookup-contains k m)

  -- A key that the map holds has a value.
  pub contains-some :
      (k : String) (m : Dict V) → contains k m ≡ true → (v : V) × (lookup k m ≡ some v)
  unfolding lookup contains
  contains-some k [] h = cc
  contains-some k ((j, v) ∷ m) h = elim (Bool-cases (str_eq j k)) [
    | inl e ↦ (v, rw e)
    | inr e ↦ let (w, q) = contains-some k m (rw e at h) in (w, rw e q)
  ]

  lookup-replace :
      (k j : String) (v : V) (m : Dict V)
      → lookup j (replace k v m)
        ≡ (if contains k m then (if str_eq k j then some v else lookup j m) else lookup j m)
  unfolding lookup contains replace
  lookup-replace k j v [] = refl
  lookup-replace k j v ((i, w) ∷ m) =
      ground (arith, eq_iff k j, eq_iff i k, eq_iff i j, lookup-replace k j v m)

  lookup-place :
      (k j : String) (v : V) (m : Dict V)
      → contains k m ≡ false
      → lookup j (place k v m) ≡ (if str_eq k j then some v else lookup j m)
  unfolding lookup contains place
  lookup-place k j v [] h = refl
  lookup-place k j v ((i, w) ∷ m) h =
      ground (arith, eq_iff k j, eq_iff i k, eq_iff i j, lookup-place k j v m)

  pub lookup-insert :
      (k j : String) (v : V) (m : Dict V)
      → lookup j (insert k v m) ≡ (if str_eq k j then some v else lookup j m)
  unfolding insert
  lookup-insert k j v m = elim (Bool-cases (contains k m)) [
    | inl h ↦ rw h (rw (lookup-replace k j v m, h))
    | inr h ↦ rw h (lookup-place k j v m h)
  ]

  pub lookup-erase :
      (k j : String) (m : Dict V) → lookup j (erase k m) ≡ (if str_eq k j then none else lookup j m)
  unfolding lookup erase
  lookup-erase k j [] = ground arith
  lookup-erase k j ((i, w) ∷ m) =
      ground (arith, eq_iff k j, eq_iff i k, eq_iff i j, lookup-erase k j m)
