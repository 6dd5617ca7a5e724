-- ===== src/Json/RoundTrip/Strings.antt =====
-- A printed string is read back, whatever bytes it has.
use mathlib.Core.List.{append_assoc, append-nil}
use proto_gpu.Prelude.{ℕ, ◌≡◌, ◌≢◌, refl, ap, sym, ◌∙◌, some, [], ◌∷◌, ◌++◌, arith}
use proto_gpu.Prelude.Chars.{Bytes}
use proto_gpu.Prelude.Results.{ok}
use proto_gpu.Json.Reader.{unescape, string_body, parse_string}
use proto_gpu.Json.Printer.{escape, escaped, quoted}

string_body_quote : (out t : Bytes) → string_body out (b'"' ∷ t) ≡ ok (out, t)
unfolding string_body
string_body_quote out [] = refl
string_body_quote out (e ∷ t) = refl

string_body_plain :
    (out : Bytes) (c : ℕ) (t : Bytes)
    → c ≢ b'"'
    → c ≢ b'\\'
    → string_body out (c ∷ t) ≡ string_body (out ++ c ∷ []) t
unfolding string_body
string_body_plain out c [] q b = ground arith
string_body_plain out c (e ∷ t) q b = ground arith

string_body_escape :
    (out : Bytes) (e b : ℕ) (t : Bytes)
    → unescape e ≡ some b
    → string_body out (b'\\' ∷ e ∷ t) ≡ string_body (out ++ b ∷ []) t
unfolding string_body
string_body_escape out e b t h = ground arith

-- One byte that is printed is read.
string_body-escape :
    (out : Bytes) (c : ℕ) (t : Bytes)
    → string_body out (escape c ++ t) ≡ string_body (out ++ c ∷ []) t
unfolding escape unescape
string_body-escape out c t = ground (
  arith,
  string_body_plain out c t,
  string_body_escape out b'"' b'"' t refl,
  string_body_escape out b'\\' b'\\' t refl,
  string_body_escape out b'n' 10 t refl,
  string_body_escape out b'r' 13 t refl,
  string_body_escape out b't' 9 t refl,
)

string_body-escaped :
    (out s rest : Bytes) → string_body out (escaped s ++ rest) ≡ ok (out ++ s, rest)
unfolding escaped
string_body-escaped out [] rest =
    string_body_quote out rest ∙ ap (λ (t : Bytes). ok (t, rest)) (sym (append-nil out))
string_body-escaped out (c ∷ s) rest =
    ap (string_body out) (append_assoc (escape c) (escaped s) rest)
    ∙ string_body-escape out c (escaped s ++ rest)
    ∙ string_body-escaped (out ++ c ∷ []) s rest
    ∙ ap (λ (t : Bytes). ok (t, rest)) (append_assoc out (c ∷ []) s)

pub parse_string-quoted : (s rest : Bytes) → parse_string (quoted s ++ rest) ≡ ok (s, rest)
unfolding parse_string
parse_string-quoted s rest = string_body-escaped [] s rest
