-- ===== src/Modes/Values.antt =====
-- The values of JSON as Python reads them, and the dictionaries over text keys that hold them.
-- A number is in thousandths; `null` is None.
use Prim.Native.String.{String}
use text.Mathlib.Text.{◌==◌ as str_eq}
use text.Mathlib.TextEquality.{eq_iff}
use energy_optimiser.Prelude.{
  ◌≡◌, refl, Bool, true, false, Option, none, some, List, [], ◌∷◌, ℤ, pos, arith, if◌then◌else◌,
}

mutual
  pub data Json : Type 0 where
    null : Json
    boolean : Bool → Json
    number : ℤ → Json
    str : String → Json
    array : Items → Json
    object : Fields → Json

  pub data Items : Type 0 where
    nil : Items
    cons : Json → Items → Items

  pub data Fields : Type 0 where
    end : Fields
    field : String → Json → Fields → Fields

-- A call returns, raises an exception that `_load` catches (KeyError or ValueError), or one that
-- it does not (TypeError or AttributeError).
pub data Result {ℓ} (A : Type ℓ) : Type ℓ where
  ok : A → Result A
  caught : Result A
  uncaught : Result A

infixl 5 ◌>>=◌
abbrev pub ◌>>=◌ {ℓ κ} : {A : Type ℓ} {B : Type κ} → Result A → (A → Result B) → Result B
ok a >>= f = f a
caught >>= f = caught
uncaught >>= f = uncaught

-- `fields.get(name)`, with none for a missing key.
unfoldable pub get : String → Fields → Option Json
get name end = none
get name (field k v rest) = if str_eq k name then some v else get name rest

-- `fields[name]`
abbrev pub subscript : String → Fields → Result Json
subscript name fields = elim (get name fields) [ none ↦ caught | some v ↦ ok v ]

-- `fields.get(name)`
abbrev pub get_or_null : String → Fields → Json
get_or_null name fields = elim (get name fields) [ none ↦ null | some v ↦ v ]

-- The number that Python compares, for a bool or a number.
abbrev pub as_number : Json → Option ℤ
as_number (number x) = some x
as_number (boolean true) = some (pos 1000)
as_number (boolean false) = some (pos 0)
as_number _ = none

-- Dictionaries in insertion order.
module _ {ℓ} {V : Type ℓ} where
  unfoldable pub find : String → List (String × V) → Option V
  find k [] = none
  find k ((j, v) ∷ d) = if str_eq j k then some v else find k d

  unfoldable pub put : String → V → List (String × V) → List (String × V)
  put k v [] = (k, v) ∷ []
  put k v ((j, w) ∷ d) = if str_eq j k then (j, v) ∷ d else (j, w) ∷ put k v d

  unfoldable pub remove : String → List (String × V) → List (String × V)
  remove k [] = []
  remove k ((j, w) ∷ d) = if str_eq j k then d else (j, w) ∷ remove k d

  -- No key is listed twice.
  abbrev pub NodupKeys : List (String × V) → Type ℓ
  NodupKeys [] = Unit
  NodupKeys ((k, _) ∷ d) = (find k d ≡ none) × NodupKeys d

  pub find-put :
      (k j : String) (v : V) (d : List (String × V))
      → find j (put k v d) ≡ (if str_eq k j then some v else find j d)
  unfolding find put
  find-put k j v [] = refl
  find-put k j v ((i, w) ∷ d) = ground (arith, eq_iff k j, eq_iff i k, eq_iff i j, find-put k j v d)

  pub find-remove :
      (k j : String) (d : List (String × V))
      → NodupKeys d
      → find j (remove k d) ≡ (if str_eq k j then none else find j d)
  unfolding find remove
  find-remove k j [] u = ground arith
  find-remove k j ((i, w) ∷ d) (fresh, u) =
      ground (arith, eq_iff k j, eq_iff i k, eq_iff i j, find-remove k j d u)

  pub put-NodupKeys :
      (k : String) (v : V) (d : List (String × V)) → NodupKeys d → NodupKeys (put k v d)
  unfolding put find
  put-NodupKeys k v [] u = (refl, tt)
  put-NodupKeys k v ((j, w) ∷ d) (fresh, u) =
      ground (arith, eq_iff j k, eq_iff k j, find-put k j v d, put-NodupKeys k v d u)

  pub remove-NodupKeys : (k : String) (d : List (String × V)) → NodupKeys d → NodupKeys (remove k d)
  unfolding remove find
  remove-NodupKeys k [] u = tt
  remove-NodupKeys k ((j, w) ∷ d) (fresh, u) =
      ground (arith, eq_iff j k, eq_iff k j, find-remove k j d u, remove-NodupKeys k d u)
