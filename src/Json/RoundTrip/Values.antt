-- ===== src/Json/RoundTrip/Values.antt =====
-- A printed value is read back.
use mathlib.Core.List.{append_assoc, append-nil}
use proto_gpu.Prelude.{
  ℕ, zero, suc, ◌+◌, ◌*◌, ◌≤◌, ◌≡◌, refl, ap, sym, ◌∙◌, Bool, true, false, ◌||◌, some, inl, inr, [],
  ◌∷◌, ◌++◌, arith, ◌==◌, if◌then◌else◌, length, length-append,
}
use proto_gpu.Prelude.Chars.{Bytes, codes, is_digit, is_space, starts_with}
use proto_gpu.Prelude.Results.{ok}
use proto_gpu.Json.{
  Value, Items, Fields, Doubles, null, bool, number, string, array, object, no_items, item,
  no_fields, field, emplace,
}
use proto_gpu.Json.Ends.{zero_not_digit}
use proto_gpu.Json.Numbers.{peek, at, lex_number}
use proto_gpu.Json.Reader.{
  skip_ws, parse_number, parse_scalar, converted, parse_value, parse_items, parse_fields, only,
  parse,
}
use proto_gpu.Json.Printer.{quoted, stringify, stringify_items, stringify_fields}
use proto_gpu.Json.RoundTrip.Strings.{parse_string-quoted}
use proto_gpu.Json.RoundTrip.Numbers.{Stops, lex_number-append, lex_number_starts}

-- The object that `emplace` builds from the entries, on top of `o`.
abbrev pub all_emplaced : Fields → Fields → Fields
all_emplaced o no_fields = o
all_emplaced o (field k v rest) = all_emplaced (emplace k v o) rest

skip_ws_none : (c : ℕ) (t : Bytes) → is_space c ≡ false → skip_ws (c ∷ t) ≡ c ∷ t
unfolding skip_ws
skip_ws_none c t h = ground arith

module _ (doubles : Doubles) where
  -- The printed numbers are numbers that convert back, and each object is what `emplace` builds of
  -- its entries, as a std::map is.
  abbrev pub IsPrintableNumber : ℕ → Type 0
  IsPrintableNumber n =
      (lex_number (doubles.print n) ≡ ok (doubles.print n, []))
      × (doubles.strtod (doubles.print n) ≡ some n)

  unfoldable mutual
    pub IsPrintable : Value → Type 0
    IsPrintable null = Unit
    IsPrintable (bool b) = Unit
    IsPrintable (number n) = IsPrintableNumber n
    IsPrintable (string s) = Unit
    IsPrintable (array xs) = ArePrintable xs
    IsPrintable (object o) = (all_emplaced no_fields o ≡ o) × HasPrintable o

    pub ArePrintable : Items → Type 0
    ArePrintable no_items = Unit
    ArePrintable (item v xs) = IsPrintable v × ArePrintable xs

    pub HasPrintable : Fields → Type 0
    HasPrintable no_fields = Unit
    HasPrintable (field k v o) = IsPrintable v × HasPrintable o

  -- What starts like a number is left to `parse_number`.
  number_head :
      (c : ℕ)
      → (c == b'-' || is_digit c) ≡ true
      → (is_space c ≡ false) × ((c == b'"') ≡ false) × ((c == b'{') ≡ false) × ((c == b'[') ≡ false)
  unfolding is_digit is_space
  number_head c h = ground arith

  parse_value_number :
      (f c : ℕ) (t : Bytes)
      → (c == b'-' || is_digit c) ≡ true
      → parse_value doubles (suc f) (c ∷ t) ≡ parse_number doubles (c ∷ t)
  unfolding parse_value parse_scalar
  parse_value_number f c t h = ground (arith, number_head c h, skip_ws_none c t)

  parse_number-print :
      (n : ℕ) (rest : Bytes)
      → IsPrintableNumber n
      → Stops rest
      → parse_number doubles (doubles.print n ++ rest) ≡ ok (number n, rest)
  unfolding parse_number converted
  parse_number-print n rest h stops =
      ground (arith, h.0, h.1, lex_number-append (doubles.print n) rest stops h.0)

  value_number :
      (f n : ℕ) (rest : Bytes)
      → IsPrintableNumber n
      → Stops rest
      → parse_value doubles (suc f) (doubles.print n ++ rest) ≡ ok (number n, rest)
  value_number f n rest h stops =
      go (doubles.print n) (lex_number_starts (doubles.print n) _ h.0)
      ∙ parse_number-print n rest h stops
    where
      go :
          (t : Bytes)
          → (at b'-' t || is_digit (peek t)) ≡ true
          → parse_value doubles (suc f) (t ++ rest) ≡ parse_number doubles (t ++ rest)
      go [] k = absurd (ground (arith, zero_not_digit))
      go (c ∷ t) k = parse_value_number f c (t ++ rest) k

  value_scalars :
      (f : ℕ) (b : Bool) (rest : Bytes)
      → (parse_value doubles (suc f) (codes "null" ++ rest) ≡ ok (null, rest))
        × (parse_value doubles (suc f) ((if b then codes "true" else codes "false") ++ rest)
            ≡ ok (bool b, rest))
  unfolding parse_value parse_scalar is_space is_digit starts_with
  value_scalars f true rest = (refl, refl)
  value_scalars f false rest = (refl, refl)

  value_string :
      (f : ℕ) (s rest : Bytes)
      → parse_value doubles (suc f) (quoted s ++ rest) ≡ ok (string s, rest)
  unfolding parse_value is_space
  value_string f s rest = rw (parse_string-quoted s rest) refl

  -- One turn of the loops, in front of the closing bracket and in front of a comma.
  items_last :
      (f : ℕ) (s : Bytes) (v : Value) (rest : Bytes)
      → skip_ws s ≡ s
      → parse_value doubles f s ≡ ok (v, b']' ∷ rest)
      → parse_items doubles (suc f) s ≡ ok (item v no_items, rest)
  unfolding parse_items is_space
  items_last f s v rest skip h = rw (skip, h) refl

  items_more :
      (f : ℕ) (s : Bytes) (v : Value) (t : Bytes) (xs : Items) (rest : Bytes)
      → skip_ws s ≡ s
      → parse_value doubles f s ≡ ok (v, b',' ∷ t)
      → parse_items doubles f t ≡ ok (xs, rest)
      → parse_items doubles (suc f) s ≡ ok (item v xs, rest)
  unfolding parse_items is_space
  items_more f s v t xs rest skip h more = rw (skip, h, more) refl

  fields_last :
      (f : ℕ) (o : Fields) (k s : Bytes) (v : Value) (rest : Bytes)
      → skip_ws s ≡ s
      → parse_value doubles f s ≡ ok (v, b'}' ∷ rest)
      → parse_fields doubles (suc f) o (quoted k ++ b':' ∷ s) ≡ ok (emplace k v o, rest)
  unfolding parse_fields is_space
  fields_last f o k s v rest skip h = rw (parse_string-quoted k (b':' ∷ s), skip, h) refl

  fields_more :
      (f : ℕ) (o : Fields) (k s : Bytes) (v : Value) (t : Bytes) (o' : Fields) (rest : Bytes)
      → skip_ws s ≡ s
      → parse_value doubles f s ≡ ok (v, b',' ∷ t)
      → parse_fields doubles f (emplace k v o) t ≡ ok (o', rest)
      → parse_fields doubles (suc f) o (quoted k ++ b':' ∷ s) ≡ ok (o', rest)
  unfolding parse_fields is_space
  fields_more f o k s v t o' rest skip h more =
      rw (parse_string-quoted k (b':' ∷ s), skip, h, more) refl

  -- A printed value starts with no space and with no closing bracket.
  abbrev HasHead : Bytes → Type 0
  HasHead s = (skip_ws s ≡ s) × (at b']' s ≡ false)

  number_HasHead : (t rest : Bytes) → (at b'-' t || is_digit (peek t)) ≡ true → HasHead (t ++ rest)
  unfolding is_digit
  number_HasHead [] rest k = absurd (ground (arith, zero_not_digit))
  number_HasHead (c ∷ t) rest k = (skip_ws_none c (t ++ rest) (number_head c k).0, ground arith)

  stringify-HasHead :
      (v : Value) (rest : Bytes) → IsPrintable v → HasHead (stringify doubles v ++ rest)
  unfolding stringify IsPrintable is_space skip_ws
  stringify-HasHead null rest h = (refl, refl)
  stringify-HasHead (bool true) rest h = (refl, refl)
  stringify-HasHead (bool false) rest h = (refl, refl)
  stringify-HasHead (number n) rest h =
      number_HasHead (doubles.print n) rest (lex_number_starts (doubles.print n) _ h.0)
  stringify-HasHead (string s) rest h = (refl, refl)
  stringify-HasHead (array xs) rest h = (refl, refl)
  stringify-HasHead (object o) rest h = (refl, refl)

  array_more :
      (f : ℕ) (u : Bytes) (xs : Items) (rest : Bytes)
      → HasHead u
      → parse_items doubles f u ≡ ok (xs, rest)
      → parse_value doubles (suc f) (b'[' ∷ u) ≡ ok (array xs, rest)
  unfolding parse_value is_space
  array_more f u xs rest head h = ground (arith, head, h)

  object_more :
      (f : ℕ) (w : Bytes) (o : Fields) (rest : Bytes)
      → parse_fields doubles f no_fields (b'"' ∷ w) ≡ ok (o, rest)
      → parse_value doubles (suc f) (b'{' ∷ b'"' ∷ w) ≡ ok (object o, rest)
  unfolding parse_value is_space
  object_more f w o rest h = rw h refl

  empty_ones :
      (f : ℕ) (rest : Bytes)
      → (parse_value doubles (suc f) (b'[' ∷ b']' ∷ rest) ≡ ok (array no_items, rest))
        × (parse_value doubles (suc f) (b'{' ∷ b'}' ∷ rest) ≡ ok (object no_fields, rest))
  unfolding parse_value is_space
  empty_ones f rest = (refl, refl)

  -- The texts without the comma in front.
  abbrev shown : Value → Bytes
  shown v = stringify doubles v

  abbrev items_text : Value → Items → Bytes
  items_text v xs = shown v ++ stringify_items doubles false xs

  abbrev fields_text : Bytes → Value → Fields → Bytes
  fields_text k v o = quoted k ++ (b':' ∷ (shown v ++ stringify_fields doubles false o))

  items_head :
      (v : Value) (xs : Items) (rest : Bytes) → IsPrintable v → HasHead (items_text v xs ++ rest)
  items_head v xs rest p =
      rw (append_assoc (shown v) (stringify_items doubles false xs) rest)
        (stringify-HasHead v (stringify_items doubles false xs ++ rest) p)

  field_length :
      (k : Bytes) (v : Value) (j : Bytes) (w : Value) (o : Fields)
      → length (quoted k ++ (b':' ∷ (shown v ++ b',' ∷ fields_text j w o)))
        ≡ length (quoted k) + length (shown v) + length (fields_text j w o) + 2
  field_length k v j w o = omega (
    arith,
    length-append (quoted k) (b':' ∷ (shown v ++ b',' ∷ fields_text j w o)),
    length-append (shown v) (b',' ∷ fields_text j w o),
  )

  mutual
    unfolding stringify IsPrintable

    value_reads :
        (v : Value) (f : ℕ) (rest : Bytes)
        → IsPrintable v
        → Stops rest
        → 2 * length (shown v) ≤ f
        → parse_value doubles (suc f) (shown v ++ rest) ≡ ok (v, rest)
    value_reads null f rest p st le = (value_scalars f true rest).0
    value_reads (bool b) f rest p st le = (value_scalars f b rest).1
    value_reads (number n) f rest p st le = value_number f n rest p st
    value_reads (string s) f rest p st le = value_string f s rest
    value_reads (array no_items) f rest p st le = (empty_ones f rest).0
    value_reads (array (item v xs)) zero rest p st le = absurd (omega arith)
    value_reads (array (item v xs)) (suc f) rest p st le =
        array_more (suc f) (items_text v xs ++ rest) (item v xs) rest (items_head v xs rest p.0)
          (items_read v xs f rest p (omega arith))
    value_reads (object no_fields) f rest p st le = (empty_ones f rest).1
    value_reads (object (field k v o)) zero rest p st le = absurd (omega arith)
    value_reads (object (field k v o)) (suc f) rest p st le =
        object_more (suc f) _ (field k v o) rest (
          fields_read no_fields k v o f rest p.1 (omega arith)
          ∙ ap (λ (t : Fields). ok (t, rest)) p.0)

    items_read :
        (v : Value) (xs : Items) (f : ℕ) (rest : Bytes)
        → ArePrintable (item v xs)
        → 2 * length (items_text v xs) + 1 ≤ f
        → parse_items doubles (suc f) (items_text v xs ++ rest) ≡ ok (item v xs, rest)
    items_read v xs zero rest p le = absurd (omega arith)
    items_read v no_items (suc f) rest p le = rw (append_assoc (shown v) (b']' ∷ []) rest) (
        items_last (suc f) (shown v ++ b']' ∷ rest) v rest (stringify-HasHead v _ p.0).0 (
          value_reads v f (b']' ∷ rest) p.0 (inr (inl refl))
            (omega (arith, length-append (shown v) (b']' ∷ [])))))
    items_read v (item w ys) (suc f) rest p le =
        rw (append_assoc (shown v) (b',' ∷ items_text w ys) rest) (
          items_more (suc f) (shown v ++ b',' ∷ (items_text w ys ++ rest)) v
            (items_text w ys ++ rest) (item w ys) rest (stringify-HasHead v _ p.0).0
            (value_reads v f (b',' ∷ (items_text w ys ++ rest)) p.0 (inl refl)
              (omega (arith, length-append (shown v) (b',' ∷ items_text w ys))))
            (items_read w ys f rest p.1
              (omega (arith, length-append (shown v) (b',' ∷ items_text w ys)))))

    fields_read :
        (acc : Fields) (k : Bytes) (v : Value) (o : Fields) (f : ℕ) (rest : Bytes)
        → HasPrintable (field k v o)
        → 2 * length (fields_text k v o) + 1 ≤ f
        → parse_fields doubles (suc f) acc (fields_text k v o ++ rest)
          ≡ ok (all_emplaced acc (field k v o), rest)
    fields_read acc k v o zero rest p le = absurd (omega arith)
    fields_read acc k v no_fields (suc f) rest p le =
        rw
          (
            append_assoc (quoted k) (b':' ∷ (shown v ++ b'}' ∷ [])) rest,
            append_assoc (shown v) (b'}' ∷ []) rest,
          )
          (fields_last (suc f) acc k (shown v ++ b'}' ∷ rest) v rest (stringify-HasHead v _ p.0).0 (
            value_reads v f (b'}' ∷ rest) p.0 (inr (inr refl)) (
              omega (
                arith,
                length-append (quoted k) (b':' ∷ (shown v ++ b'}' ∷ [])),
                length-append (shown v) (b'}' ∷ []),
              ))))
    fields_read acc k v (field j w o) (suc f) rest p le =
        rw
          (
            append_assoc (quoted k) (b':' ∷ (shown v ++ b',' ∷ fields_text j w o)) rest,
            append_assoc (shown v) (b',' ∷ fields_text j w o) rest,
          )
          (fields_more (suc f) acc k (shown v ++ b',' ∷ (fields_text j w o ++ rest)) v
            (fields_text j w o ++ rest) _ rest (stringify-HasHead v _ p.0).0
            (value_reads v f (b',' ∷ (fields_text j w o ++ rest)) p.0 (inl refl)
              (omega (arith, field_length k v j w o)))
            (fields_read (emplace k v acc) j w o f rest p.1
              (omega (arith, field_length k v j w o))))

  parse_all :
      (v : Value) (f : ℕ)
      → IsPrintable v
      → 2 * length (shown v) ≤ f
      → parse_value doubles (suc f) (shown v) ≡ ok (v, [])
  parse_all v f p le =
      ap (parse_value doubles (suc f)) (sym (append-nil (shown v))) ∙ value_reads v f [] p tt le

  -- A value that is printed in front of the end of the text, or of a separator, is read back.
  pub parse-stringify : (v : Value) → IsPrintable v → parse doubles (stringify doubles v) ≡ ok v
  unfolding parse only skip_ws
  parse-stringify v p =
      let fuel : 2 * length (shown v) + 1 ≡ suc (2 * length (shown v)) = omega arith in
      rw (fuel, parse_all v (2 * length (shown v)) p (omega arith)) refl
