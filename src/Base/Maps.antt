-- ===== src/Base/Maps.antt =====
-- Go maps with string keys, as association lists: a key is looked up at its first entry, `insert`
-- writes it there, and `delete` takes every entry of a key out. Code that ranges over a map meets the
-- keys in the order of the list, so statements about it should not depend on that order.
use Prim.Native.String.{String}
use text.Mathlib.Text.{◌==◌ as str_eq_native}
use text.Mathlib.TextEquality.{eq_iff}
use mathlib.Core.Path.{◌≡◌, refl}
use mathlib.Core.Logic.{◌↔◌}
use mathlib.Core.Bool.{Bool, true, false, ◌||◌}
use mathlib.Core.Option
use mathlib.Core.Option.{Option, none, some}
use mathlib.Core.List.{List, [], ◌∷◌}
use native.Mathlib.Omega.{arith}
use socket_io.Base.Bools.{if◌then◌else◌}

unfoldable pub str_eq : String → String → Bool
str_eq s t = str_eq_native s t

pub str_eq_iff : (s t : String) → (str_eq s t ≡ true) ↔ (s ≡ t)
unfolding str_eq
str_eq_iff s t = eq_iff s t

pub str_eq_refl : (s : String) → str_eq s s ≡ true
str_eq_refl s = (str_eq_iff s s).1 refl

-- Membership in a list of names, as a test.
unfoldable pub str_elem : String → List String → Bool
str_elem s [] = false
str_elem s (t ∷ ts) = str_eq t s || str_elem s ts

abbrev pub is_some {ℓ} : {A : Type ℓ} → Option A → Bool
is_some none = false
is_some (some a) = true

abbrev pub StringMap : Type 0 → Type 0
StringMap V = List (String × V)

module _ {V : Type 0} where
  unfoldable pub lookup : String → StringMap V → Option V
  lookup key [] = none
  lookup key ((j, v) ∷ entries) = if str_eq j key then some v else lookup key entries

  -- An entry that is there keeps its place.
  unfoldable pub insert : String → V → StringMap V → StringMap V
  insert key v [] = (key, v) ∷ []
  insert key v ((j, old) ∷ entries) =
      if str_eq j key then (j, v) ∷ entries else (j, old) ∷ insert key v entries

  unfoldable pub delete : String → StringMap V → StringMap V
  delete k [] = []
  delete k ((j, w) ∷ m) = if str_eq j k then delete k m else (j, w) ∷ delete k m

  -- A change of the value that a map holds a pointer to: nothing happens at a missing key.
  unfoldable pub update_at : String → (V → V) → StringMap V → StringMap V
  update_at k f [] = []
  update_at k f ((j, w) ∷ m) = if str_eq j k then (j, f w) ∷ m else (j, w) ∷ update_at k f m

  unfoldable pub keys : StringMap V → List String
  keys [] = []
  keys ((j, w) ∷ m) = j ∷ keys m

  pub lookup-insert :
      (key other : String) (v : V) (entries : StringMap V)
      → lookup other (insert key v entries)
        ≡ (if str_eq key other then some v else lookup other entries)
  unfolding insert lookup
  lookup-insert key other v [] = refl
  lookup-insert key other v ((i, old) ∷ entries) = ground (
    arith,
    lookup-insert key other v entries,
    str_eq_iff i other,
    str_eq_iff i key,
    str_eq_iff key other,
  )

  pub lookup-delete :
      (k j : String) (m : StringMap V)
      → lookup j (delete k m) ≡ (if str_eq k j then none else lookup j m)
  unfolding lookup delete
  lookup-delete k j [] = ground arith
  lookup-delete k j ((i, w) ∷ m) =
      ground (arith, str_eq_iff k j, str_eq_iff i k, str_eq_iff i j, lookup-delete k j m)

  pub lookup-update_at :
      (k j : String) (f : V → V) (m : StringMap V)
      → lookup j (update_at k f m) ≡ (if str_eq k j then Option.map f (lookup j m) else lookup j m)
  unfolding lookup update_at
  lookup-update_at k j f [] = ground arith
  lookup-update_at k j f ((i, w) ∷ m) =
      ground (arith, str_eq_iff k j, str_eq_iff i k, str_eq_iff i j, lookup-update_at k j f m)

  pub str_elem-keys : (k : String) (m : StringMap V) → str_elem k (keys m) ≡ is_some (lookup k m)
  unfolding str_elem keys lookup
  str_elem-keys k [] = refl
  str_elem-keys k ((i, w) ∷ m) = ground (arith, str_elem-keys k m)
