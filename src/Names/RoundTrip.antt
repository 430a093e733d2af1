-- ===== src/Names/RoundTrip.antt =====
-- What is encoded by internal/controller/shared/externalname.go is decoded, and nothing else.
use crossplane_provider_time.Prelude.{
  ℕ, ◌≡◌, ◌≢◌, refl, sym, subst, ap, ◌∙◌, ◌↔◌, inl, inr, Text, [], ◌∷◌, ◌++◌, Option, none, some,
  false, ◌==◌, arith, In, Bool-cases, Option-cases,
}
use crossplane_provider_time.Prelude.Int.{ℤ, IsInt64}
use crossplane_provider_time.Prelude.Decimal.{print_int, parse_int, parse_int-print_int}
use crossplane_provider_time.Names.{
  encode_id, decode_id, encode_composite, cut, both_parts, decode_composite,
}

decode_id_eq : (s : Text) (z : ℤ) → parse_int s ≡ some z → decode_id s ≡ some z
unfolding decode_id parse_int
decode_id_eq [] z h = cc
decode_id_eq (c ∷ s) z h = h

-- The id that an external name was made from is read back, for every 64-bit number.
pub decode_id-encode_id : (id : ℤ) → IsInt64 id → decode_id (encode_id id) ≡ some id
unfolding encode_id
decode_id-encode_id id h = decode_id_eq (print_int id) id (parse_int-print_int id h)

cut-append : (p q : Text) → ¬ In b'/' p → cut (p ++ b'/' ∷ q) ≡ some (p, q)
unfolding cut
cut-append [] q h = refl
cut-append (c ∷ p) q h = elim (Bool-cases (c == b'/')) [
  | inl t ↦ absurd (h (inl (ground arith)))
  | inr f ↦ rw (f, cut-append p q (λ m. h (inr m))) refl
]

abbrev IsCut : Text → Text → Text → Type 0
IsCut s p q = (s ≡ p ++ b'/' ∷ q) × ¬ In b'/' p

abbrev pair_or : Text × Text → Option (Text × Text) → Text × Text
pair_or d none = d
pair_or d (some x) = x

pair_eq :
    (a b c d : Text)
    → ◌≡◌ {A = Option (Text × Text)} (some (a, b)) (some (c, d))
    → (a ≡ c) × (b ≡ d)
pair_eq a b c d h =
    let e : ◌≡◌ {A = Text × Text} (a, b) (c, d) = ap (pair_or (a, b)) h in
    (ap (λ x. x.0) e, ap (λ x. x.1) e)

IsCut-here : (c : ℕ) (s p q : Text) → c ≡ b'/' → [] ≡ p → s ≡ q → IsCut (c ∷ s) p q
IsCut-here c s p q e f g = subst (λ y. IsCut (c ∷ s) y q) f (rw (e, g) (refl, λ m. m))

IsCut-later : (c : ℕ) (s p q : Text) → (c == b'/') ≡ false → IsCut s p q → IsCut (c ∷ s) (c ∷ p) q
IsCut-later c s p q f (e, n) = (ap (λ l. c ∷ l) e, elim [ inl x ↦ differs x | inr m ↦ n m ])
  where
    differs : c ≡ b'/' → ⊥
    differs x = ground arith

cut-IsCut : (s p q : Text) → cut s ≡ some (p, q) → IsCut s p q
unfolding cut
cut-IsCut [] p q h = cc
cut-IsCut (c ∷ s) p q h = elim (Bool-cases (c == b'/')) [
  | inl t ↦ let r = pair_eq [] s p q (rw t at h) in IsCut-here c s p q (ground arith) r.0 r.1
  | inr f ↦ elim (Option-cases (cut s)) [
    | inl e ↦ let g : ◌≡◌ {A = Option (Text × Text)} none (some (p, q)) = (rw (f, e) at h) in cc
    | inr ((x, y), e) ↦
        let r = pair_eq (c ∷ x) y p q (rw (f, e) at h) in
        subst (λ z. IsCut (c ∷ s) z q) r.0
          (subst (λ z. IsCut (c ∷ s) (c ∷ x) z) r.1 (IsCut-later c s x y f (cut-IsCut s x y e)))
  ]
]

-- A name of a parent and a child: both are there, and no slash is in the parent's name.
pub record IsComposite (name parent child : Text) : Type 0 where
  pub encoded : encode_composite parent child ≡ name
  pub has_parent : parent ≢ []
  pub has_child : child ≢ []
  pub no_slash : ¬ In b'/' parent

both_parts-some :
    (p q : Text) (o : Option (Text × Text))
    → both_parts o ≡ some (p, q)
    → (o ≡ some (p, q)) × (p ≢ []) × (q ≢ [])
unfolding both_parts
both_parts-some p q none h = cc
both_parts-some p q (some ([], y)) h = cc
both_parts-some p q (some (c ∷ x, [])) h = cc
both_parts-some p q (some (c ∷ x, d ∷ y)) h =
    let r = pair_eq (c ∷ x) (d ∷ y) p q h in
    (h, (λ e. let f : c ∷ x ≡ [] = r.0 ∙ e in cc), (λ e. let f : d ∷ y ≡ [] = r.1 ∙ e in cc))

both_parts-full : (p q : Text) → p ≢ [] → q ≢ [] → both_parts (some (p, q)) ≡ some (p, q)
unfolding both_parts
both_parts-full [] q h k = absurd (h refl)
both_parts-full (c ∷ p) [] h k = absurd (k refl)
both_parts-full (c ∷ p) (d ∷ q) h k = refl

-- A composite name is decoded into a parent and a child exactly if it is the name made from them,
-- neither is empty, and no slash is in the parent.
pub decode_composite_iff :
    (name parent child : Text)
    → (decode_composite name ≡ some (parent, child)) ↔ IsComposite name parent child
unfolding decode_composite encode_composite
decode_composite_iff name parent child = (
  (λ h.
      let (e, p, q) = both_parts-some parent child (cut name) h in
      let c = cut-IsCut name parent child e in
      record { encoded = sym c.0; has_parent = p; has_child = q; no_slash = c.1 }),
  (λ i.
      ap both_parts (ap cut (sym i.encoded) ∙ cut-append parent child i.no_slash)
      ∙ both_parts-full parent child i.has_parent i.has_child),
)
