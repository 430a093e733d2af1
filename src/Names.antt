-- ===== src/Names.antt =====
-- internal/controller/shared/externalname.go: the external names of resources. `int` has 64 bits.
use crossplane_provider_time.Prelude.{
  ℕ, ◌≡◌, Text, [], ◌∷◌, ◌++◌, Option, none, some, if◌then◌else◌, ◌==◌,
}
use crossplane_provider_time.Prelude.Int.{ℤ}
use crossplane_provider_time.Prelude.Decimal.{print_int, parse_int}
pub mod RoundTrip
mod Tests

unfoldable pub encode_id : ℤ → Text
encode_id id = print_int id

-- `none` is an error, here and below.
unfoldable pub decode_id : Text → Option ℤ
decode_id [] = none
decode_id (c ∷ s) = parse_int (c ∷ s)

unfoldable pub encode_composite : Text → Text → Text
encode_composite parent child = parent ++ b'/' ∷ child

-- `strings.IndexByte` and the two slices: what is before the first slash, and what is after it.
abbrev pub put_before : ℕ → Option (Text × Text) → Option (Text × Text)
put_before c none = none
put_before c (some (p, q)) = some (c ∷ p, q)

unfoldable pub cut : Text → Option (Text × Text)
cut [] = none
cut (c ∷ s) = let rest = cut s in if c == b'/' then some ([], s) else put_before c rest

unfoldable pub both_parts : Option (Text × Text) → Option (Text × Text)
both_parts none = none
both_parts (some ([], q)) = none
both_parts (some (c ∷ p, [])) = none
both_parts (some (c ∷ p, d ∷ q)) = some (c ∷ p, d ∷ q)

unfoldable pub decode_composite : Text → Option (Text × Text)
unfolding cut both_parts
decode_composite s = both_parts (cut s)
