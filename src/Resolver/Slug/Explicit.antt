-- ===== src/Resolver/Slug/Explicit.antt =====
-- The explicit form `<base>-<id>` of resolver/slug.go: `splitDisambiguator` reads what
-- `SlugWithID` writes, and the search finds the entry that it names.
use crossplane_provider_time.Prelude.{
  ℕ, ◌^◌, ◌<◌, ◌≡◌, refl, inl, Text, true, false, none, some, List, [], ◌∷◌, ◌++◌, arith, length,
  All, In, same_iff, and-true, ltb, ◌↔◌, find-In, find-some,
}
use crossplane_provider_time.Prelude.Int.{ℤ, pos, eq_ℤ_iff}
use crossplane_provider_time.Prelude.Decimal.{
  print, print_int, IsDigit, print-All, print-ne_nil, length-print, parse_int-print,
}
use crossplane_provider_time.Resolver.Errors.{ok}
use crossplane_provider_time.Resolver.Slug.{
  PresetEntry, is_word, dash, is_empty, split_step, split_last, split_at, split_disambiguator,
  slug_with_id, entry_slug, is_explicit, find_base, find_explicit, match_preset_slug,
}
use crossplane_provider_time.Resolver.Slug.Normal.{
  IsSlug, IsLower, Clean, normalize_of_IsSlug, slugify-IsSlug, IsSlug-join,
}

split_last_digits : (t : Text) → All IsDigit t → split_last t ≡ none
unfolding split_last
split_last_digits [] h = refl
split_last_digits (c ∷ t) h = rw (split_last_digits t h.1) (unfold split_step in ground arith)

split_last-join : (s t : Text) → All IsDigit t → split_last (s ++ dash ∷ t) ≡ some (s, t)
unfolding split_last split_step
split_last-join [] t h = rw (split_last_digits t h)
split_last-join (c ∷ s) t h = rw (split_last-join s t h)

digit-word : (c : ℕ) → IsDigit c → is_word c ≡ true
digit-word c h = ground arith

print-not_empty : (n : ℕ) → is_empty (print n) ≡ false
unfolding is_empty
print-not_empty n = let (c, s, e) = print-ne_nil n in rw e

split_at-explicit :
    (base : Text) (n : ℕ)
    → is_empty base ≡ false
    → n < 10 ^ 18
    → split_at (base, print n) ≡ some (base, pos n)
unfolding split_at
split_at-explicit base n e lt =
    let short : ltb 18 (length (print n)) ≡ false = ground (arith, length-print 17 n lt) in
    rw (e, print-not_empty n, short, parse_int-print n (omega arith))

-- The explicit form of a nonempty base and an id of at most 18 digits is split where it was joined.
pub split_disambiguator-join :
    (base : Text) (n : ℕ)
    → is_empty base ≡ false
    → n < 10 ^ 18
    → split_disambiguator (base ++ dash ∷ print n) ≡ some (base, pos n)
unfolding split_disambiguator
split_disambiguator-join base n e lt =
    rw (split_last-join base (print n) (print-All n), split_disambiguator)
      (split_at-explicit base n e lt)

module _ (lower : ℕ → ℕ) where
  pub is_explicit_lem :
      (base : Text) (id : ℤ) (e : PresetEntry)
      → (is_explicit lower base id e ≡ true) ↔ ((e.upstream_id ≡ id) × (entry_slug lower e ≡ base))
  unfolding is_explicit
  is_explicit_lem base id e = (
    (λ h. let r = and-true _ _ h in ((eq_ℤ_iff _ _).0 r.0, (same_iff _ _).0 r.1)),
    (λ h. rw ((eq_ℤ_iff _ _).1 h.0, (same_iff _ _).1 h.1)),
  )

  find_base-In :
      (base : Text) (id : ℤ) (e : PresetEntry) (es : List PresetEntry)
      → In e es
      → e.upstream_id ≡ id
      → entry_slug lower e ≡ base
      → find_base lower es (base, id) ≡ some id
  find_base-In base id e es m p q =
      let (b, found) =
        find-In (is_explicit lower base id) e es m ((is_explicit_lem base id e).1 (p, q)) in
      let r = (is_explicit_lem base id b).0 (find-some (is_explicit lower base id) b es found).1 in
      rw (found, r.0)

Clean-digits : (s : Text) → All IsDigit s → Clean false s
Clean-digits [] h = refl
Clean-digits (c ∷ s) h = inl (digit-word c h.0, Clean-digits s h.1)

IsSlug-digits : (s : Text) → All IsDigit s → IsSlug s
IsSlug-digits [] h = tt
IsSlug-digits (c ∷ s) h = inl (digit-word c h.0, Clean-digits s h.1)

module _ (lower : ℕ → ℕ) (l : IsLower lower) (e : PresetEntry) (n : ℕ) where
  explicit-IsSlug :
      is_empty (entry_slug lower e) ≡ false → IsSlug (entry_slug lower e ++ dash ∷ print n)
  explicit-IsSlug f =
      IsSlug-join (entry_slug lower e) (print n) f (print-not_empty n)
        (unfold entry_slug in slugify-IsSlug lower e.desc_short e.location)
        (IsSlug-digits (print n) (print-All n))

  pub slug_with_id_lem :
      e.upstream_id ≡ pos n
      → is_empty (entry_slug lower e) ≡ false
      → slug_with_id lower e.desc_short e.location e.upstream_id
        ≡ entry_slug lower e ++ dash ∷ print n
  unfolding slug_with_id entry_slug print_int
  slug_with_id_lem p f = rw (p, f)

  -- The round trip of the explicit form: the slug that `SlugWithID` writes for an entry of the
  -- catalog resolves to the entry's id, if `unicode.ToLower` leaves a-z, 0-9 and the dash alone,
  -- the entry's slug is not empty, and its id is not negative and has at most 18 digits; whatever
  -- the other entries are, also where they have the same slug.
  pub match_preset_slug-slug_with_id :
      (entries : List PresetEntry) (dimension_id : Text)
      → In e entries
      → e.upstream_id ≡ pos n
      → n < 10 ^ 18
      → is_empty (entry_slug lower e) ≡ false
      → match_preset_slug lower
          (slug_with_id lower e.desc_short e.location e.upstream_id)
          entries
          dimension_id
        ≡ ok e.upstream_id
  unfolding find_explicit match_preset_slug
  match_preset_slug-slug_with_id entries dimension_id m p lt f =
      rw (slug_with_id_lem p f, match_preset_slug)
        (rw (normalize_of_IsSlug lower l _ (explicit-IsSlug f), find_explicit)
          (rw (split_disambiguator-join (entry_slug lower e) n f lt)
            (rw (find_base-In lower (entry_slug lower e) (pos n) e entries m p refl, p))))
