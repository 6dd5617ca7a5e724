-- ===== src/Json/Printer.antt =====
-- The printer (`stringify` of src/common/json.cpp).
use proto_gpu.Prelude.{ℕ, Bool, true, false, [], ◌∷◌, ◌++◌, ◌==◌, if◌then◌else◌}
use proto_gpu.Prelude.Chars.{Bytes, codes}
use proto_gpu.Json.{
  Value, Items, Fields, Doubles, null, bool, number, string, array, object, no_items, item,
  no_fields, field,
}

unfoldable pub escape : ℕ → Bytes
escape c =
    if c == b'"'
    then b'\\' ∷ b'"' ∷ []
    else if c == b'\\'
    then b'\\' ∷ b'\\' ∷ []
    else if c == 10
    then b'\\' ∷ b'n' ∷ []
    else if c == 13
    then b'\\' ∷ b'r' ∷ []
    else if c == 9
    then b'\\' ∷ b't' ∷ []
    else c ∷ []

-- The body of `stringify_string` with the closing quote.
unfoldable pub escaped : Bytes → Bytes
unfolding escape
escaped [] = b'"' ∷ []
escaped (c ∷ s) = escape c ++ escaped s

abbrev pub quoted : Bytes → Bytes
quoted s = b'"' ∷ escaped s

module _ (doubles : Doubles) where
  -- The flag is whether nothing was printed before: a comma stands in front of the others.
  unfoldable mutual
    unfolding escaped

    pub stringify : Value → Bytes
    stringify null = codes "null"
    stringify (bool b) = if b then codes "true" else codes "false"
    stringify (number v) = doubles.print v
    stringify (string s) = quoted s
    stringify (array xs) = b'[' ∷ stringify_items true xs
    stringify (object o) = b'{' ∷ stringify_fields true o

    pub stringify_items : Bool → Items → Bytes
    stringify_items first no_items = b']' ∷ []
    stringify_items first (item v xs) =
        (if first then [] else b',' ∷ []) ++ (stringify v ++ stringify_items false xs)

    pub stringify_fields : Bool → Fields → Bytes
    stringify_fields first no_fields = b'}' ∷ []
    stringify_fields first (field k v o) =
        (if first then [] else b',' ∷ [])
        ++ (quoted k ++ (b':' ∷ (stringify v ++ stringify_fields false o)))
