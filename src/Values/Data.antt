-- ===== src/Values/Data.antt =====
-- A value, and the reads of a plain object's properties. A cyclic value has no counterpart here.
use gptsession_bridge.Shared.{
  ℕ, String, Bool, true, false, Option, none, some, leb, string_eq, ◌==◌, if◌then◌else◌,
}
use gptsession_bridge.Protocol.Text.{max_safe_integer}

-- A sign and a magnitude (-0 included), any other finite number, and NaN or an infinity.
pub data Number : Type 0 where
  integer : Bool → ℕ → Number
  fraction : ℕ → Number
  not_finite : ℕ → Number

-- `opaque` stands for a function, a symbol, a bigint, or an object of a class.
mutual
  pub data Value : Type 0 where
    undefined : Value
    null : Value
    boolean : Bool → Value
    number : Number → Value
    string : String → Value
    array : Items → Value
    object : Fields → Value
    opaque : ℕ → Value

  pub data Items : Type 0 where
    nil : Items
    cons : Value → Items → Items

  pub data Fields : Type 0 where
    end : Fields
    field : String → Value → Fields → Fields

-- Number.isSafeInteger
unfoldable pub is_safe_integer : Number → Bool
is_safe_integer (integer sign n) = leb n max_safe_integer
is_safe_integer _ = false

-- The own property `k`, or `undefined`.
unfoldable pub member : Fields → String → Value
member end k = undefined
member (field j v r) k = if j == k then v else member r k

-- Object.hasOwn
unfoldable pub has_own : Fields → String → Bool
has_own end k = false
has_own (field j v r) k = if j == k then true else has_own r k

-- Object.defineProperty with a plain data descriptor.
unfoldable pub set_property : Fields → String → Value → Fields
set_property end k v = field k v end
set_property (field j w r) k v = if j == k then field j v r else field j w (set_property r k v)

unfoldable pub delete_property : Fields → String → Fields
delete_property end k = end
delete_property (field j w r) k = if j == k then r else field j w (delete_property r k)

-- Some key passes a test.
unfoldable pub some_key : (String → Bool) → Fields → Bool
some_key p end = false
some_key p (field j v r) = if p j then true else some_key p r

-- isDataRecord and readOptionalDataRecord
unfoldable pub read_record : Value → Option Fields
read_record (object fs) = some fs
read_record _ = none

-- record?.[k]
unfoldable pub at : Option Fields → String → Value
at none k = undefined
at (some fs) k = member fs k

abbrev pub is_nullish : Value → Bool
is_nullish undefined = true
is_nullish null = true
is_nullish _ = false

-- v === s, for a text or `null`.
unfoldable pub same_as : Value → Option String → Bool
same_as (string s) (some t) = s == t
same_as null none = true
same_as _ _ = false
