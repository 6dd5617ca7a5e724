-- ===== src/Json.antt =====
-- JSON (include/gpusim/json.h, src/common/json.cpp): values, the reader and the printer. A text is its
-- bytes. A double is its 64-bit pattern; `strtod` and the printing of a double are parameters.
pub mod Numbers
pub mod Reader
pub mod Printer
pub mod Ends
pub mod RoundTrip
use proto_gpu.Prelude.{
  ℕ, Bool, true, false, ◌&&◌, ◌||◌, Option, none, some, List, [], ◌∷◌, ltb, ◌==◌, if◌then◌else◌,
}
use proto_gpu.Prelude.Chars.{Bytes, same_bytes}

-- Arrays and objects list their values; an object's keys ascend, as in a std::map.
mutual
  pub data Value : Type 0 where
    null : Value
    bool : Bool → Value
    number : ℕ → Value
    string : Bytes → Value
    array : Items → Value
    object : Fields → Value

  pub data Items : Type 0 where
    no_items : Items
    item : Value → Items → Items

  pub data Fields : Type 0 where
    no_fields : Fields
    field : Bytes → Value → Fields → Fields

-- `strtod` on a whole text, `none` where it converts nothing, and `out << v`.
pub record Doubles : Type 0 where
  pub strtod : Bytes → Option ℕ
  pub print : ℕ → Bytes

-- `a < b` for std::string
unfoldable pub less : Bytes → Bytes → Bool
less _ [] = false
less [] (y ∷ ys) = true
less (x ∷ xs) (y ∷ ys) = ltb x y || (x == y && less xs ys)

-- `emplace` keeps the value that a key has already.
unfoldable pub emplace : Bytes → Value → Fields → Fields
unfolding less
emplace k v no_fields = field k v no_fields
emplace k v (field j w o) =
    let rest = field j w (emplace k v o) in
    if less k j then field k v (field j w o) else if less j k then rest else field j w o

unfoldable pub find_field : Bytes → Fields → Option Value
find_field k no_fields = none
find_field k (field j w o) = if same_bytes j k then some w else find_field k o

-- `Value::get`: null where the value is not an object or has no such key
unfoldable pub get : Value → Bytes → Option Value
unfolding find_field
get (object o) key = find_field key o
get _ key = none
