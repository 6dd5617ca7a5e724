-- ===== src/Tests/Texts.antt =====
-- The reader and the printer of JSON at concrete inputs.
use proto_gpu.Prelude.{◌≡◌, ◌≢◌, refl, true, some}
use proto_gpu.Prelude.Chars.{codes, is_space, is_digit, starts_with}
use proto_gpu.Prelude.Results.{ok, err}
use proto_gpu.Json.{
  Value, Doubles, null, bool, number, string, array, object, no_items, item, no_fields, field,
  emplace,
}
use proto_gpu.Json.Numbers.{lex_number, digits, sign, whole, fraction, exponent, out_of_fuel}
use proto_gpu.Json.Reader.{parse, parse_value}
use proto_gpu.Json.Ends.{parse_ends}
use proto_gpu.Json.Printer.{stringify}
use proto_gpu.Json.RoundTrip.Values.{IsPrintable, parse-stringify}

-- One double, the pattern of -1.5.
abbrev doubles : Doubles
doubles = record { strtod = λ s. some 0xbff8000000000000; print = λ v. codes "-1.5" }

abbrev sample : Value
sample = object (
    field (codes "a") (string (codes "x\n\"")) (
      field (codes "b")
        (array (item (number 0xbff8000000000000) (item (bool true) (item null no_items))))
        no_fields))

sample_read : parse doubles (codes " {\"b\":[-1.5, true,null ] ,\"a\": \"x\\n\\\"\" }") ≡ ok sample
unfolding parse parse_value is_space is_digit starts_with emplace lex_number digits sign whole
    fraction exponent
sample_read = refl

parse_ends_example : parse doubles (codes "[1, ") ≢ err out_of_fuel
parse_ends_example = parse_ends doubles (codes "[1, ")

sample-IsPrintable : IsPrintable doubles sample
unfolding IsPrintable emplace lex_number digits sign whole fraction exponent is_digit
sample-IsPrintable = (refl, (tt, (((refl, refl), (tt, (tt, tt))), tt)))

parse-stringify_example : parse doubles (stringify doubles sample) ≡ ok sample
parse-stringify_example = parse-stringify doubles sample sample-IsPrintable
