-- ===== src/Names/Tests.antt =====
-- Runs of internal/controller/shared/externalname.go, and its theorems at concrete names.
use crossplane_provider_time.Prelude.{◌≡◌, refl, ◌↔◌, arith, lit, none, some}
use crossplane_provider_time.Prelude.Int.{ℤ, negsuc, IsInt64}
use crossplane_provider_time.Names.{encode_id, decode_id, cut, both_parts, decode_composite}
use crossplane_provider_time.Names.RoundTrip.{
  IsComposite, decode_id-encode_id, decode_composite_iff,
}

-- The number -42.
abbrev minus_42 : ℤ
minus_42 = negsuc 41

minus_42-IsInt64 : IsInt64 minus_42
minus_42-IsInt64 = (omega arith, omega arith)

decode_id-encode_id_example : decode_id (encode_id minus_42) ≡ some minus_42
decode_id-encode_id_example = decode_id-encode_id minus_42 minus_42-IsInt64

no_child : decode_composite (lit "web/") ≡ none
unfolding decode_composite cut both_parts
no_child = refl

decode_composite_iff_example :
    (decode_composite (lit "web/app/v1") ≡ some (lit "web", lit "app/v1"))
    ↔ IsComposite (lit "web/app/v1") (lit "web") (lit "app/v1")
decode_composite_iff_example = decode_composite_iff (lit "web/app/v1") (lit "web") (lit "app/v1")
