-- ===== src/Json/Reader.antt =====
-- The reader of values (src/common/json.cpp). Its recursion is on fuel.
use proto_gpu.Prelude.{
  ℕ, zero, suc, ◌+◌, ◌*◌, true, false, ◌||◌, Option, none, some, [], ◌∷◌, ◌++◌, ◌==◌, if◌then◌else◌,
  length, drop,
}
use proto_gpu.Prelude.Chars.{Bytes, codes, is_space, is_digit, starts_with}
use proto_gpu.Prelude.Results.{Result, ok, err, ◌>>=◌}
use proto_gpu.Json.{
  Value, Items, Fields, Doubles, null, bool, number, string, array, object, no_items, item,
  no_fields, emplace,
}
use proto_gpu.Json.Numbers.{
  Why, Failure, parse_error, out_of_fuel, Read, fail, peek, tail, at, lex_number, expected,
  unterminated_escape, unicode_escape, invalid_escape, unterminated_string, no_conversion,
  key_not_string, unexpected_token, trailing_characters,
}

unfoldable pub skip_ws : Bytes → Bytes
skip_ws [] = []
skip_ws (c ∷ s) = let rest = skip_ws s in if is_space c then rest else c ∷ s

abbrev pub expect : ℕ → Bytes → Result Failure Bytes
expect c s = if at c s then ok (tail s) else err (parse_error (expected c) s)

-- What an escape stands for.
unfoldable pub unescape : ℕ → Option ℕ
unescape e =
    if e == b'"' || e == b'\\' || e == b'/'
    then some e
    else if e == b'b'
    then some 8
    else if e == b'f'
    then some 12
    else if e == b'n'
    then some 10
    else if e == b'r'
    then some 13
    else if e == b't'
    then some 9
    else none

unfoldable pub bad_escape : ℕ → Why
bad_escape e = if e == b'u' then unicode_escape else invalid_escape

-- The loop of `parse_string`, behind the opening quote; `out` is what was read.
unfoldable pub string_body : Bytes → Bytes → Read Bytes
unfolding unescape bad_escape
string_body out [] = fail unterminated_string []
string_body out (c ∷ []) =
    if c == b'"'
    then ok (out, [])
    else if c == b'\\'
    then fail unterminated_escape []
    else fail unterminated_string []
string_body out (c ∷ e ∷ s) = elim (c == b'"') [
  | true ↦ ok (out, e ∷ s)
  | false ↦ elim (c == b'\\') [
    | true ↦ elim (unescape e) [
      | none ↦ fail (bad_escape e) s
      | some b ↦ string_body (out ++ b ∷ []) s
    ]
    | false ↦ string_body (out ++ c ∷ []) (e ∷ s)
  ]
]

unfoldable pub parse_string : Bytes → Read Bytes
unfolding string_body
parse_string s = do rest ← expect b'"' s; string_body [] rest

unfoldable pub converted : Option ℕ → Bytes → Read Value
converted none rest = fail no_conversion rest
converted (some v) rest = ok (number v, rest)

abbrev pub lit : Bytes → Bytes → Value → Read Value → Read Value
lit text s v otherwise = if starts_with text s then ok (v, drop (length text) s) else otherwise

unfoldable pub only : Value → Bytes → Result Failure Value
only v [] = ok v
only v (c ∷ s) = err (parse_error trailing_characters (c ∷ s))

module _ (doubles : Doubles) where
  unfoldable pub parse_number : Bytes → Read Value
  unfolding converted
  parse_number s = do (text, rest) ← lex_number s; converted (doubles.strtod text) rest

  -- The last cases of `parse_value`: what is neither a string nor an array nor an object.
  unfoldable pub parse_scalar : Bytes → Read Value
  unfolding parse_number starts_with
  parse_scalar s =
      if at b'-' s || is_digit (peek s)
      then parse_number s
      else lit (codes "true") s (bool true)
          (lit (codes "false") s (bool false) (lit (codes "null") s null (fail unexpected_token s)))

  -- `parse_items` and `parse_fields` are the loops of `parse_array` and `parse_object`, behind the
  -- test for an empty one; the object that is built is `o`.
  unfoldable mutual
    unfolding skip_ws parse_string parse_scalar emplace

    pub parse_value : ℕ → Bytes → Read Value
    parse_value zero s = err out_of_fuel
    parse_value (suc f) s =
        let t = skip_ws s in
        let u = skip_ws (tail t) in
        let items = (parse_items f u >>= λ r. ok (array r.0, r.1)) in
        let fields = (parse_fields f no_fields u >>= λ r. ok (object r.0, r.1)) in
        let text = (parse_string t >>= λ r. ok (string r.0, r.1)) in
        if at b'"' t
        then text
        else if at b'{' t
        then (if at b'}' u then ok (object no_fields, tail u) else fields)
        else if at b'[' t
        then (if at b']' u then ok (array no_items, tail u) else items)
        else parse_scalar t

    pub parse_items : ℕ → Bytes → Read Items
    parse_items zero s = err out_of_fuel
    parse_items (suc f) s = do
      (v, r) ← parse_value f (skip_ws s)
      let u = skip_ws r
      let more = (expect b',' u >>= λ rest. (parse_items f rest >>= λ r'. ok (item v r'.0, r'.1)))
      if at b']' u then ok (item v no_items, tail u) else more

    pub parse_fields : ℕ → Fields → Bytes → Read Fields
    parse_fields zero o s = err out_of_fuel
    parse_fields (suc f) o s =
        let t = skip_ws s in
        let entry = (do
          (k, r) ← parse_string t
          colon ← expect b':' (skip_ws r)
          (v, r') ← parse_value f (skip_ws colon)
          let u = skip_ws r'
          let more = (expect b',' u >>= λ rest. parse_fields f (emplace k v o) rest)
          if at b'}' u then ok (emplace k v o, tail u) else more) in
        if at b'"' t then entry else fail key_not_string t

  unfoldable pub parse : Bytes → Result Failure Value
  unfolding only skip_ws
  parse text = do (v, rest) ← parse_value (2 * length text + 1) text; only v (skip_ws rest)
