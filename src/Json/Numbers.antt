-- ===== src/Json/Numbers.antt =====
-- `parse_number` (src/common/json.cpp) up to its call of `strtod`: the bytes of the number and those
-- that follow. An error keeps the bytes that were left where it arose, which tell its offset.
use proto_gpu.Prelude.{ℕ, Bool, ◌||◌, [], ◌∷◌, ◌++◌, ◌==◌, if◌then◌else◌}
use proto_gpu.Prelude.Chars.{Bytes, is_digit}
use proto_gpu.Prelude.Results.{Result, ok, err, ◌>>=◌}

pub data Why : Type 0 where
  expected : ℕ → Why
  unterminated_escape unicode_escape invalid_escape unterminated_string : Why
  invalid_number invalid_fraction invalid_exponent no_conversion : Why
  key_not_string unexpected_token trailing_characters : Why

-- `out_of_fuel` has no counterpart in the program.
pub data Failure : Type 0 where
  parse_error : Why → Bytes → Failure
  out_of_fuel : Failure

-- A reader answers what it read and the bytes that follow.
abbrev pub Read {ℓ} : Type ℓ → Type ℓ
Read A = Result Failure (A × Bytes)

abbrev pub fail {ℓ} : {A : Type ℓ} → Why → Bytes → Read A
fail why s = err (parse_error why s)

-- 0 at the end of the text
abbrev pub peek : Bytes → ℕ
peek [] = 0
peek (c ∷ s) = c

abbrev pub tail : Bytes → Bytes
tail [] = []
tail (c ∷ s) = s

-- `consume` moves on past the byte; the answer is whether it was there.
abbrev pub at : ℕ → Bytes → Bool
at c s = peek s == c

unfoldable pub digits : Bytes → Bytes × Bytes
digits [] = ([], [])
digits (c ∷ s) = let (ds, rest) = digits s in if is_digit c then (c ∷ ds, rest) else ([], c ∷ s)

unfoldable pub sign : Bytes → Bytes × Bytes
sign s = if at b'-' s then (b'-' ∷ [], tail s) else ([], s)

unfoldable pub whole : Bytes → Read Bytes
whole s =
    if is_digit (peek s)
    then ok (if at b'0' s then (b'0' ∷ [], tail s) else digits s)
    else fail invalid_number s

unfoldable pub fraction : Bytes → Read Bytes
fraction s =
    if at b'.' s
    then (if is_digit (peek (tail s))
        then ok (b'.' ∷ (digits (tail s)).0, (digits (tail s)).1)
        else fail invalid_fraction (tail s))
    else ok ([], s)

unfoldable pub exponent_sign : Bytes → Bytes × Bytes
exponent_sign s = if at b'+' s || at b'-' s then (peek s ∷ [], tail s) else ([], s)

unfoldable pub exponent : Bytes → Read Bytes
unfolding exponent_sign
exponent s =
    if at b'e' s || at b'E' s
    then (let (sg, rest) = exponent_sign (tail s) in
        if is_digit (peek rest)
        then ok (peek s ∷ (sg ++ (digits rest).0), (digits rest).1)
        else fail invalid_exponent rest)
    else ok ([], s)

unfoldable pub lex_number : Bytes → Read Bytes
lex_number s = do
  (i, s2) ← whole (sign s).1
  (f, s3) ← fraction s2
  (e, s4) ← exponent s3
  ok ((sign s).0 ++ (i ++ (f ++ e)), s4)
