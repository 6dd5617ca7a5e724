-- ===== src/Json/Ends.antt =====
-- The reader ends within its fuel, and each value that it reads takes at least a byte.
use proto_gpu.Prelude.{
  ℕ, zero, suc, ◌+◌, ◌*◌, ◌≤◌, ◌<◌, ◌≡◌, ◌≢◌, refl, Bool, true, false, ◌||◌, ◌&&◌, Option, none,
  some, [], ◌∷◌, ◌++◌, ◌==◌, if◌then◌else◌, length, drop, arith, if_elim,
}
use proto_gpu.Prelude.Chars.{Bytes, codes, is_digit, starts_with}
use proto_gpu.Prelude.Results.{ok, err, ◌>>=◌}
use proto_gpu.Json.{Value, Fields, Doubles, null, bool, no_fields}
use proto_gpu.Json.Numbers.{
  Why, unexpected_token, parse_error, out_of_fuel, Read, fail, peek, tail, at, digits, sign, whole,
  fraction, exponent, exponent_sign, lex_number,
}
use proto_gpu.Json.Reader.{
  skip_ws, expect, unescape, bad_escape, string_body, parse_string, converted, lit, parse_number,
  parse_scalar, parse_value, parse_items, parse_fields, only, parse,
}

-- Fuel was left, and what was read leaves fewer than `n` bytes.
abbrev pub Shorter {ℓ} : {A : Type ℓ} → ℕ → Read A → Type 0
Shorter n (ok r) = length r.1 < n
Shorter n (err (parse_error why s)) = Unit {0}
Shorter n (err out_of_fuel) = ⊥

module _ {ℓ κ} {A : Type ℓ} {B : Type κ} where
  pub Shorter-bind :
      (n m : ℕ) (r : Read A) (f : A × Bytes → Read B)
      → Shorter n r
      → ((a : A × Bytes) → length a.1 < n → Shorter m (f a))
      → Shorter m (r >>= f)
  Shorter-bind n m (ok r) f h k = k r h
  Shorter-bind n m (err (parse_error why s)) f h k = tt
  Shorter-bind n m (err out_of_fuel) f h k = absurd h

-- A conditional of which each branch may use the test.
if_with {ℓ} :
    {A : Type ℓ} (n : ℕ) (b : Bool) (x y : Read A)
    → (b ≡ true → Shorter n x)
    → (b ≡ false → Shorter n y)
    → Shorter n (if b then x else y)
if_with n true x y hx hy = hx refl
if_with n false x y hx hy = hy refl

length-tail : (s : Bytes) (c : ℕ) → at c s ≡ true → 0 < c → length (tail s) < length s
length-tail [] c h pos = ground arith
length-tail (x ∷ s) c h pos = omega arith

length-tail_le : (s : Bytes) → length (tail s) ≤ length s
length-tail_le [] = omega arith
length-tail_le (x ∷ s) = omega arith

length-skip_ws : (s : Bytes) → length (skip_ws s) ≤ length s
unfolding skip_ws
length-skip_ws [] = omega arith
length-skip_ws (c ∷ s) = ground (arith, length-skip_ws s)

Shorter-weaken {ℓ} : {A : Type ℓ} (n m : ℕ) (r : Read A) → n ≤ m → Shorter n r → Shorter m r
Shorter-weaken n m (ok r) le h = omega (arith, h)
Shorter-weaken n m (err (parse_error why s)) le h = tt
Shorter-weaken n m (err out_of_fuel) le h = absurd h

-- A reader behind an expected byte.
expected_then {ℓ} :
    {A : Type ℓ} (s : Bytes) (c n : ℕ) (f : Bytes → Read A)
    → (at c s ≡ true → Shorter n (f (tail s)))
    → Shorter n (expect c s >>= f)
expected_then s c n f k = go (at c s) refl
  where
    go :
        (b : Bool)
        → at c s ≡ b
        → Shorter n ((if b then ok (tail s) else err (parse_error (Why.expected c) s)) >>= f)
    go true h = k h
    go false h = tt

Shorter-bool {ℓ} :
    {A : Type ℓ} (b : Bool) (n : ℕ) (x y : Read A)
    → Shorter n x
    → Shorter n y
    → Shorter n (elim b [ true ↦ x | false ↦ y ])
Shorter-bool true n x y hx hy = hx
Shorter-bool false n x y hx hy = hy

Shorter-option {ℓ} :
    {A : Type ℓ} (o : Option ℕ) (n : ℕ) (x : Read A) (f : ℕ → Read A)
    → Shorter n x
    → ((b : ℕ) → Shorter n (f b))
    → Shorter n (elim o [ none ↦ x | some b ↦ f b ])
Shorter-option none n x f hx hf = hx
Shorter-option (some b) n x f hx hf = hf b

string_body-Shorter : (out s : Bytes) → Shorter (suc (length s)) (string_body out s)
unfolding string_body
string_body-Shorter out [] = tt
string_body-Shorter out (c ∷ []) = ground arith
string_body-Shorter out (c ∷ e ∷ s) =
    Shorter-bool (c == b'"') (suc (suc (suc (length s)))) (ok (out, e ∷ s)) _ (omega arith) (
      Shorter-bool (c == b'\\') (suc (suc (suc (length s)))) _ _
        (Shorter-option (unescape e) (suc (suc (suc (length s)))) (fail (bad_escape e) s) _ (tt {0})
          (λ b.
            Shorter-weaken (suc (length s)) _ _ (omega arith)
              (string_body-Shorter (out ++ b ∷ []) s)))
        (Shorter-weaken (suc (suc (length s))) _ _ (omega arith)
          (string_body-Shorter (out ++ c ∷ []) (e ∷ s))))

parse_string-Shorter : (s : Bytes) → Shorter (length s) (parse_string s)
unfolding parse_string
parse_string-Shorter s = expected_then s b'"' (length s) (string_body []) (λ h.
    Shorter-weaken (suc (length (tail s))) _ _ (omega (arith, length-tail s b'"' h))
      (string_body-Shorter [] (tail s)))

length-digits : (s : Bytes) → length (digits s).1 ≤ length s
unfolding digits
length-digits [] = omega arith
length-digits (c ∷ s) = ground (arith, length-digits s)

pub zero_not_digit : is_digit 0 ≡ false
unfolding is_digit
zero_not_digit = refl

length-digits_pos : (s : Bytes) → is_digit (peek s) ≡ true → length (digits s).1 < length s
unfolding digits
length-digits_pos [] h = absurd (ground (arith, zero_not_digit))
length-digits_pos (c ∷ s) h = ground (arith, length-digits s)

length-sign : (s : Bytes) → length (sign s).1 ≤ length s
unfolding sign
length-sign s = ground (arith, length-tail_le s)

whole-Shorter : (s : Bytes) → Shorter (length s) (whole s)
unfolding whole
whole-Shorter s =
    if_with (length s) (is_digit (peek s)) _ _
      (λ h. ground (arith, length-digits_pos s h, length-tail s b'0')) (λ h. tt)

fraction-Shorter : (s : Bytes) → Shorter (suc (length s)) (fraction s)
unfolding fraction
fraction-Shorter s =
    if_elim (Shorter (suc (length s))) (at b'.' s)
      (if_elim (Shorter (suc (length s))) (is_digit (peek (tail s)))
        (omega (arith, length-digits (tail s), length-tail_le s)) tt)
      (omega arith)

length-exponent_sign : (s : Bytes) → length (exponent_sign s).1 ≤ length s
unfolding exponent_sign
length-exponent_sign s = ground (arith, length-tail_le s)

exponent-Shorter : (s : Bytes) → Shorter (suc (length s)) (exponent s)
unfolding exponent
exponent-Shorter s =
    if_elim (Shorter (suc (length s))) (at b'e' s || at b'E' s)
      (if_elim (Shorter (suc (length s))) (is_digit (peek (exponent_sign (tail s)).1))
        (omega (
          arith,
          length-digits (exponent_sign (tail s)).1,
          length-exponent_sign (tail s),
          length-tail_le s,
        ))
        tt)
      (omega arith)

lex_number-Shorter : (s : Bytes) → Shorter (length s) (lex_number s)
unfolding lex_number
lex_number-Shorter s =
    Shorter-bind (length (sign s).1) (length s) (whole (sign s).1) _ (whole-Shorter (sign s).1)
      (λ i hi.
        Shorter-bind (suc (length i.1)) (length s) (fraction i.1) _ (fraction-Shorter i.1) (λ f hf.
          Shorter-bind (suc (length f.1)) (length s) (exponent f.1) _ (exponent-Shorter f.1)
            (λ e he. omega (arith, length-sign s, hi, hf, he))))

length-drop : (n : ℕ) (s : Bytes) → length (drop n s) ≤ length s
length-drop zero s = omega arith
length-drop (suc n) [] = omega arith
length-drop (suc n) (c ∷ s) = omega (arith, length-drop n s)

-- A literal that stands here is not empty.
lit-Shorter :
    (c : ℕ) (text s : Bytes) (v : Value) (r : Read Value)
    → Shorter (length s) r
    → Shorter (length s) (lit (c ∷ text) s v r)
unfolding starts_with
lit-Shorter c text [] v r h = h
lit-Shorter c text (x ∷ s) v r h =
    if_elim (Shorter (suc (length s))) (c == x && starts_with text s)
      (omega (arith, length-drop (length text) s)) h

module _ (doubles : Doubles) where
  parse_number-Shorter : (s : Bytes) → Shorter (length s) (parse_number doubles s)
  unfolding parse_number
  parse_number-Shorter s =
      Shorter-bind (length s) (length s) (lex_number s) _ (lex_number-Shorter s)
        (λ r h. go (doubles.strtod r.0) r.1 h)
    where
      go :
          (o : Option ℕ) (rest : Bytes)
          → length rest < length s
          → Shorter (length s) (converted o rest)
      go none rest h = tt
      go (some v) rest h = h

  parse_scalar-Shorter : (s : Bytes) → Shorter (length s) (parse_scalar doubles s)
  unfolding parse_scalar
  parse_scalar-Shorter s =
      if_elim (Shorter (length s)) (at b'-' s || is_digit (peek s)) (parse_number-Shorter s) (
        lit-Shorter b't' (codes "rue") s (bool true) _ (
          lit-Shorter b'f' (codes "alse") s (bool false) _
            (lit-Shorter b'n' (codes "ull") s null (fail unexpected_token s) (tt {0}))))

  mutual
    unfolding parse_value

    value-Shorter :
        (f : ℕ) (s : Bytes) → 2 * length s + 1 ≤ f → Shorter (length s) (parse_value doubles f s)
    value-Shorter zero s h = absurd (omega arith)
    value-Shorter (suc f) s h =
        let t = skip_ws s in
        let u = skip_ws (tail t) in
        let t_le = length-skip_ws s in
        let u_le = length-skip_ws (tail t) in
        if_with (length s) (at b'"' t) _ _
          (λ q.
            Shorter-bind (length t) (length s) (parse_string t) _ (parse_string-Shorter t)
              (λ r hr. omega (arith, hr, t_le)))
          (λ _.
            if_with (length s) (at b'{' t) _ _
              (λ q.
                let less = length-tail t b'{' q (omega arith) in
                if_elim (Shorter (length s)) (at b'}' u)
                  (omega (arith, less, t_le, u_le, length-tail_le u))
                  (Shorter-bind (length u) (length s) (parse_fields doubles f no_fields u) _
                    (fields-Shorter f no_fields u (omega (arith, less, t_le, u_le)))
                    (λ r hr. omega (arith, hr, less, t_le, u_le))))
              (λ _.
                if_with (length s) (at b'[' t) _ _
                  (λ q.
                    let less = length-tail t b'[' q (omega arith) in
                    if_elim (Shorter (length s)) (at b']' u)
                      (omega (arith, less, t_le, u_le, length-tail_le u))
                      (Shorter-bind (length u) (length s) (parse_items doubles f u) _
                        (items-Shorter f u (omega (arith, less, t_le, u_le)))
                        (λ r hr. omega (arith, hr, less, t_le, u_le))))
                  (λ _. Shorter-weaken (length t) _ _ t_le (parse_scalar-Shorter t))))

    items-Shorter :
        (f : ℕ) (s : Bytes) → 2 * length s + 2 ≤ f → Shorter (length s) (parse_items doubles f s)
    items-Shorter zero s h = absurd (omega arith)
    items-Shorter (suc f) s h =
        Shorter-bind (length (skip_ws s)) (length s) (parse_value doubles f (skip_ws s)) _
          (value-Shorter f (skip_ws s) (omega (arith, length-skip_ws s)))
          (λ r hr.
            let u = skip_ws r.1 in
            let u_le = length-skip_ws r.1 in
            let s_le = length-skip_ws s in
            if_elim (Shorter (length s)) (at b']' u)
              (omega (arith, hr, u_le, s_le, length-tail_le u))
              (expected_then u b',' (length s) _ (λ q.
                let less = length-tail u b',' q (omega arith) in
                Shorter-bind (length (tail u)) (length s) (parse_items doubles f (tail u)) _
                  (items-Shorter f (tail u) (omega (arith, less, hr, u_le, s_le)))
                  (λ r' hr'. omega (arith, hr', less, hr, u_le, s_le)))))

    fields-Shorter :
        (f : ℕ) (o : Fields) (s : Bytes)
        → 2 * length s + 2 ≤ f
        → Shorter (length s) (parse_fields doubles f o s)
    fields-Shorter zero o s h = absurd (omega arith)
    fields-Shorter (suc f) o s h =
        let t = skip_ws s in
        let t_le = length-skip_ws s in
        if_elim (Shorter (length s)) (at b'"' t)
          (Shorter-bind (length t) (length s) (parse_string t) _ (parse_string-Shorter t) (λ k hk.
            let w = skip_ws k.1 in
            let w_le = length-skip_ws k.1 in
            expected_then w b':' (length s) _ (λ q.
              let x = skip_ws (tail w) in
              let x_le = length-skip_ws (tail w) in
              let w_less = length-tail w b':' q (omega arith) in
              Shorter-bind (length x) (length s) (parse_value doubles f x) _
                (value-Shorter f x (omega (arith, x_le, w_less, w_le, hk, t_le)))
                (λ r hr.
                  let u = skip_ws r.1 in
                  let u_le = length-skip_ws r.1 in
                  if_elim (Shorter (length s)) (at b'}' u)
                    (omega (arith, hr, u_le, x_le, w_less, w_le, hk, t_le, length-tail_le u))
                    (expected_then u b',' (length s) _ (λ q'.
                      Shorter-weaken (length (tail u)) _ _
                        (omega (arith, hr, u_le, x_le, w_less, w_le, hk, t_le, length-tail_le u))
                        (fields-Shorter f _ (tail u) (
                          omega (
                            arith,
                            length-tail u b',' q' (omega arith),
                            hr,
                            u_le,
                            x_le,
                            w_less,
                            w_le,
                            hk,
                            t_le,
                          )))))))))
          tt

  only-ends : (v : Value) (s : Bytes) → only v s ≢ err out_of_fuel
  unfolding only
  only-ends v [] = cc
  only-ends v (c ∷ s) = cc

  -- Whatever the text, the fuel that `parse` starts with lasts.
  pub parse_ends : (text : Bytes) → parse doubles text ≢ err out_of_fuel
  unfolding parse
  parse_ends text =
      go (parse_value doubles (2 * length text + 1) text)
        (value-Shorter (2 * length text + 1) text (omega arith))
    where
      go :
          (r : Read Value)
          → Shorter (length text) r
          → (r >>= λ x. only x.0 (skip_ws x.1)) ≢ err out_of_fuel
      go (ok (v, rest)) h = only-ends v (skip_ws rest)
      go (err (parse_error why s)) h = cc
      go (err out_of_fuel) h = absurd h
