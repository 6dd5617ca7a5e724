-- ===== src/Json/RoundTrip/Numbers.antt =====
-- A number that is read whole is read off the front of a text that goes on with a separator.
use proto_gpu.Prelude.{◌≡◌, refl, ◌⊎◌, true, false, ◌||◌, [], ◌∷◌, ◌++◌, arith}
use proto_gpu.Prelude.Chars.{Bytes, is_digit}
use proto_gpu.Prelude.Results.{ok, >>=-eq-ok}
use proto_gpu.Json.Ends.{zero_not_digit}
use proto_gpu.Json.Numbers.{
  Read, peek, at, digits, sign, whole, fraction, exponent, exponent_sign, lex_number,
}

-- The text ends, or goes on with what may stand behind a value.
abbrev pub Stops : Bytes → Type 0
Stops [] = Unit {0}
Stops (c ∷ s) = (c ≡ b',') ⊎ ((c ≡ b']') ⊎ (c ≡ b'}'))

-- No byte of a number stands at the front.
abbrev IsQuiet : Bytes → Type 0
IsQuiet s =
    (is_digit (peek s) ≡ false)
    × (at b'.' s ≡ false)
    × (at b'e' s ≡ false)
    × (at b'E' s ≡ false)
    × (at b'+' s ≡ false)
    × (at b'-' s ≡ false)

Stops-IsQuiet : (s : Bytes) → Stops s → IsQuiet s
unfolding is_digit
Stops-IsQuiet [] h = ground arith
Stops-IsQuiet (c ∷ s) h = ground arith

module _ (rest : Bytes) (quiet : IsQuiet rest) where
  digits-append : (s : Bytes) → digits (s ++ rest) ≡ ((digits s).0, (digits s).1 ++ rest)
  unfolding digits
  digits-append [] = quiet_digits rest quiet.0
    where
      quiet_digits : (r : Bytes) → is_digit (peek r) ≡ false → digits r ≡ ([], r)
      quiet_digits [] h = refl
      quiet_digits (c ∷ r) h = ground arith
  digits-append (c ∷ s) = ground (arith, digits-append s)

  sign-append : (s : Bytes) → sign (s ++ rest) ≡ ((sign s).0, (sign s).1 ++ rest)
  unfolding sign
  sign-append [] = ground arith
  sign-append (c ∷ s) = ground arith

  whole-append :
      (s : Bytes) (i : Bytes × Bytes) → whole s ≡ ok i → whole (s ++ rest) ≡ ok (i.0, i.1 ++ rest)
  unfolding whole
  whole-append [] i h = ground (arith, zero_not_digit)
  whole-append (c ∷ s) i h = ground (arith, digits-append (c ∷ s))

  fraction-append :
      (s : Bytes) (f : Bytes × Bytes)
      → fraction s ≡ ok f
      → fraction (s ++ rest) ≡ ok (f.0, f.1 ++ rest)
  unfolding fraction
  fraction-append [] f h = ground arith
  fraction-append (c ∷ []) f h = ground (arith, zero_not_digit, digits-append [])
  fraction-append (c ∷ d ∷ s) f h = ground (arith, digits-append (d ∷ s))

  exponent_sign-append :
      (s : Bytes) → exponent_sign (s ++ rest) ≡ ((exponent_sign s).0, (exponent_sign s).1 ++ rest)
  unfolding exponent_sign
  exponent_sign-append [] = ground arith
  exponent_sign-append (c ∷ s) = ground arith

  exponent-append :
      (s : Bytes) (e : Bytes × Bytes)
      → exponent s ≡ ok e
      → exponent (s ++ rest) ≡ ok (e.0, e.1 ++ rest)
  unfolding exponent
  exponent-append [] e h = ground arith
  exponent-append (c ∷ s) e h =
      ground (arith, exponent_sign-append s, digits_after (exponent_sign s).1)
    where
      digits_after :
          (t : Bytes)
          → is_digit (peek t) ≡ true
          → (is_digit (peek (t ++ rest)) ≡ true)
            × (digits (t ++ rest) ≡ ((digits t).0, (digits t).1 ++ rest))
      digits_after [] k = absurd (ground (arith, zero_not_digit))
      digits_after (d ∷ t) k = (k, digits-append (d ∷ t))

ok_front :
    (text left rest t : Bytes)
    → ◌≡◌ {A = Read Bytes} (ok (text, left)) (ok (t, []))
    → ◌≡◌ {A = Read Bytes} (ok (text, left ++ rest)) (ok (t, rest))
ok_front text left rest t h = ground arith

-- A text that is a number by itself is read as that number in front of a separator.
pub lex_number-append :
    (t rest : Bytes)
    → Stops rest
    → lex_number t ≡ ok (t, [])
    → lex_number (t ++ rest) ≡ ok (t, rest)
unfolding lex_number
lex_number-append t rest stops h =
    let quiet = Stops-IsQuiet rest stops in
    let (i, hi, h1) = >>=-eq-ok (whole (sign t).1) _ h in
    let (f, hf, h2) = >>=-eq-ok (fraction i.1) _ h1 in
    let (e, he, h3) = >>=-eq-ok (exponent f.1) _ h2 in
    rw
      (
        sign-append rest quiet t,
        whole-append rest quiet (sign t).1 i hi,
        fraction-append rest quiet i.1 f hf,
        exponent-append rest quiet f.1 e he,
      )
      (ok_front _ _ rest t h3)

whole_starts :
    (s : Bytes) (i : Bytes × Bytes)
    → whole (sign s).1 ≡ ok i
    → (at b'-' s || is_digit (peek s)) ≡ true
unfolding whole sign
whole_starts s i h = ground arith

-- A number starts with its sign or a digit.
pub lex_number_starts :
    (s : Bytes) (r : Bytes × Bytes) → lex_number s ≡ ok r → (at b'-' s || is_digit (peek s)) ≡ true
unfolding lex_number
lex_number_starts s r h = let (i, hi, _) = >>=-eq-ok (whole (sign s).1) _ h in whole_starts s i hi
