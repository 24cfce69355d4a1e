-- ===== src/Base/Json.antt =====
-- Decoded JSON. The fields of an object stand in order; a decoded object has each key once.
pub mod Objects
use mathlib.Core.Option.{Option, none, some}
use bmk_dev.Base.Equality.{◌==◌, list_eq, nat_eq, if◌then◌else◌}
use bmk_dev.Base.Text.{Text}
use mathlib.Core.Bool.{Bool, true, false, ◌&&◌}
use Prim.Native.Nat.{ℕ, suc}
use mathlib.Core.Path.{◌≡◌}
use bmk_dev.Base.Tests.{eqb}

module _ (Number : Type 0) where
  mutual
    pub data Json : Type 0 where
      null : Json
      boolean : Bool → Json
      number : Number → Json
      string : Text → Json
      array : Values → Json
      object : Fields → Json

    pub data Values : Type 0 where
      no_values : Values
      value : Json → Values → Values

    pub data Fields : Type 0 where
      no_fields : Fields
      field : Text → Json → Fields → Fields

  -- `d.get(key)`, with `none` for an absent key and `some null` for the value `None`.
  abbrev pub get_field : Text → Fields → Option Json
  get_field key no_fields = none
  get_field key (field k v more) =
      let rest = get_field key more in if key == k then some v else rest

  -- `d[key] = value`
  unfoldable pub set_field : Text → Json → Fields → Fields
  set_field key v no_fields = field key v no_fields
  set_field key v (field k w more) =
      let rest = set_field key v more in if key == k then field key v more else field k w rest

  -- `d.setdefault(key, value)`
  abbrev pub set_default : Text → Json → Fields → Fields
  set_default key v fields = elim (get_field key fields) [
    | none ↦ set_field key v fields
    | some w ↦ fields
  ]

  -- `d.pop(key, None)`
  unfoldable pub erase_field : Text → Fields → Fields
  erase_field key no_fields = no_fields
  erase_field key (field k w more) =
      let rest = erase_field key more in if key == k then rest else field k w rest

  abbrev pub count_fields : Fields → ℕ
  count_fields no_fields = 0
  count_fields (field k v more) = suc (count_fields more)

  -- Python's `==` on what is decoded: the order of an object's fields is not compared, and a truth
  -- value is the number that it stands for.
  module _ (same_number : Number → Number → Bool) (number_of : Bool → Number) where
    unfoldable mutual
      pub same_json : Json → Json → Bool
      same_json null null = true
      same_json (boolean a) (boolean b) = same_number (number_of a) (number_of b)
      same_json (boolean a) (number n) = same_number (number_of a) n
      same_json (number n) (boolean b) = same_number n (number_of b)
      same_json (number n) (number m) = same_number n m
      same_json (string s) (string t) = s == t
      same_json (array xs) (array ys) = same_values xs ys
      same_json (object f) (object g) = eqb (count_fields f) (count_fields g) && all_fields f g
      same_json _ _ = false

      pub same_values : Values → Values → Bool
      same_values no_values no_values = true
      same_values (value x xs) (value y ys) = same_json x y && same_values xs ys
      same_values _ _ = false

      -- Every field of one object is a field of the other, with the same value.
      pub all_fields : Fields → Fields → Bool
      all_fields no_fields g = true
      all_fields (field k v more) g =
          elim (get_field k g) [ none ↦ false | some w ↦ same_json v w ] && all_fields more g

  -- Each object in a value has each key once, as every decoded object has.
  unfoldable mutual
    pub IsDecoded : Json → Type 0
    IsDecoded (array xs) = AreDecoded xs
    IsDecoded (object f) = HasFields f
    IsDecoded _ = Unit

    pub AreDecoded : Values → Type 0
    AreDecoded no_values = Unit
    AreDecoded (value x xs) = IsDecoded x × AreDecoded xs

    pub HasFields : Fields → Type 0
    HasFields no_fields = Unit
    HasFields (field k v more) = (get_field k more ≡ none) × IsDecoded v × HasFields more
