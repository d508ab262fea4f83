-- ===== src/Values/Clone.antt =====
-- cloneDataValue of thread-router.ts: a copy of data, `none` where it throws.
use gptsession_bridge.Shared.{◌≡◌, refl, ap, subst, String, Option, none, some}
use gptsession_bridge.Values.Data.{
  Number, integer, fraction, not_finite, Value, undefined, null, boolean, number, string, array,
  object, opaque, Items, nil, cons, Fields, end, field,
}

clone_number : Number → Option Value
clone_number (not_finite n) = none
clone_number x = some (number x)

abbrev as_array : Option Items → Option Value
as_array none = none
as_array (some xs) = some (array xs)

abbrev as_object : Option Fields → Option Value
as_object none = none
as_object (some fs) = some (object fs)

abbrev join_item : Option Value → Option Items → Option Items
join_item (some v) (some xs) = some (cons v xs)
join_item _ _ = none

abbrev join_field : String → Option Value → Option Fields → Option Fields
join_field k (some v) (some fs) = some (field k v fs)
join_field k _ _ = none

unfoldable mutual
  unfolding clone_number

  pub clone_value : Value → Option Value
  clone_value undefined = none
  clone_value null = some null
  clone_value (boolean b) = some (boolean b)
  clone_value (number x) = clone_number x
  clone_value (string s) = some (string s)
  clone_value (array xs) = as_array (clone_items xs)
  clone_value (object fs) = as_object (clone_fields fs)
  clone_value (opaque n) = none

  pub clone_items : Items → Option Items
  clone_items nil = some nil
  clone_items (cons v xs) = join_item (clone_value v) (clone_items xs)

  pub clone_fields : Fields → Option Fields
  clone_fields end = some end
  clone_fields (field k v fs) = join_field k (clone_value v) (clone_fields fs)

-- If a copy was made, it is the value.
abbrev Copies : {A : Type 0} → Option A → A → Type 0
Copies none a = Unit {0}
Copies (some b) a = b ≡ a

array-Copies : (o : Option Items) (xs : Items) → Copies o xs → Copies (as_array o) (array xs)
array-Copies none xs h = tt
array-Copies (some ys) xs h = ap array h

object-Copies : (o : Option Fields) (fs : Fields) → Copies o fs → Copies (as_object o) (object fs)
object-Copies none fs h = tt
object-Copies (some gs) fs h = ap object h

item-Copies :
    (o : Option Value) (q : Option Items) (v : Value) (xs : Items)
    → Copies o v
    → Copies q xs
    → Copies (join_item o q) (cons v xs)
item-Copies none q v xs h k = tt
item-Copies (some w) none v xs h k = tt
item-Copies (some w) (some ys) v xs h k = cc

field-Copies :
    (j : String) (o : Option Value) (q : Option Fields) (v : Value) (fs : Fields)
    → Copies o v
    → Copies q fs
    → Copies (join_field j o q) (field j v fs)
field-Copies j none q v fs h k = tt
field-Copies j (some w) none v fs h k = tt
field-Copies j (some w) (some gs) v fs h k = cc

mutual
  unfolding clone_value clone_number

  value-Copies : (v : Value) → Copies (clone_value v) v
  value-Copies undefined = tt
  value-Copies null = refl
  value-Copies (boolean b) = refl
  value-Copies (number (integer s n)) = refl
  value-Copies (number (fraction n)) = refl
  value-Copies (number (not_finite n)) = tt
  value-Copies (string s) = refl
  value-Copies (array xs) = array-Copies (clone_items xs) xs (items-Copies xs)
  value-Copies (object fs) = object-Copies (clone_fields fs) fs (fields-Copies fs)
  value-Copies (opaque n) = tt

  items-Copies : (xs : Items) → Copies (clone_items xs) xs
  items-Copies nil = refl
  items-Copies (cons v xs) =
      item-Copies (clone_value v) (clone_items xs) v xs (value-Copies v) (items-Copies xs)

  fields-Copies : (fs : Fields) → Copies (clone_fields fs) fs
  fields-Copies end = refl
  fields-Copies (field k v fs) =
      field-Copies k (clone_value v) (clone_fields fs) v fs (value-Copies v) (fields-Copies fs)

-- A copy that is made equals its original.
pub clone_fields-eq : (fs gs : Fields) → clone_fields fs ≡ some gs → gs ≡ fs
clone_fields-eq fs gs h = subst (λ o. Copies o fs) h (fields-Copies fs)
