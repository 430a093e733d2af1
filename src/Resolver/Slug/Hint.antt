-- ===== src/Resolver/Slug/Hint.antt =====
-- The hint of the ambiguity error of resolver/slug.go: it resolves, and to which entry.
use crossplane_provider_time.Prelude.{
  ℕ, ◌^◌, ◌<◌, ◌≡◌, refl, ◌⊎◌, inl, inr, Text, true, false, List, [], ◌∷◌, ◌++◌, map, arith, All,
  In, All-In, ◌↔◌, same_iff, Bool-cases, subst, sym, ap, ◌∙◌, find-some, find-In,
}
use crossplane_provider_time.Prelude.Int.{ℤ, pos}
use crossplane_provider_time.Resolver.Errors.{ok, err, preset_ambiguous}
use crossplane_provider_time.Resolver.Slug.{
  PresetEntry, is_empty, normalize, slugify, slug_with_id, entry_slug, collides, hint_of,
  first_hint, conclude, match_preset_slug,
}
use crossplane_provider_time.Resolver.Slug.Normal.{IsLower}
use crossplane_provider_time.Resolver.Slug.Explicit.{match_preset_slug-slug_with_id}
use crossplane_provider_time.Resolver.Slug.Match.{slug_matches-Names, match_preset_slug-err}

module _ (lower : ℕ → ℕ) where
  not_empty-full : (s t : Text) → is_empty s ≡ false → t ≡ s → is_empty t ≡ false
  not_empty-full s t h e = rw e h

  not_empty-slugify :
      (d l : Text) → is_empty (normalize lower d) ≡ false → is_empty (slugify lower d l) ≡ false
  unfolding slugify
  not_empty-slugify d l h = elim (Bool-cases (is_empty (normalize lower l))) [
    | inl t ↦ rw (h, t) h
    | inr f ↦ rw (h, f) (not_empty-append (normalize lower d) _ h)
  ]
    where
      not_empty-append : (s t : Text) → is_empty s ≡ false → is_empty (s ++ t) ≡ false
      not_empty-append [] t k = unfold is_empty in (let k' : true ≡ false = k in cc)
      not_empty-append (c ∷ s) t k = unfold is_empty in refl

  -- The entry has the slug, in the full or in the short form.
  abbrev pub HasSlug : Text → PresetEntry → Type 0
  HasSlug slug e = (entry_slug lower e ≡ slug) ⊎ (normalize lower e.desc_short ≡ slug)

  collides_lem : (slug : Text) (e : PresetEntry) → (collides lower slug e ≡ true) ↔ HasSlug slug e
  collides_lem slug e =
      ground
        (arith, same_iff (entry_slug lower e) slug, same_iff (normalize lower e.desc_short) slug)

  not_empty-HasSlug :
      (slug : Text) (e : PresetEntry)
      → is_empty slug ≡ false
      → HasSlug slug e
      → is_empty (entry_slug lower e) ≡ false
  not_empty-HasSlug slug e h (inl p) = not_empty-full slug _ h p
  not_empty-HasSlug slug e h (inr p) =
      unfold entry_slug in not_empty-slugify e.desc_short e.location (not_empty-full slug _ h p)

  -- An id that `ParseInt` reads back and the length guard lets pass.
  abbrev pub HasShortId : PresetEntry → Type 0
  HasShortId e = (n : ℕ) × (e.upstream_id ≡ pos n) × (n < 10 ^ 18)

  conclude-ambiguous :
      (slug d slug' d' hint : Text) (ids : List ℤ) (entries matches : List PresetEntry)
      → conclude lower slug d entries matches ≡ err (preset_ambiguous slug' ids d' hint)
      → (e : PresetEntry) × In e matches
        × (ids ≡ map (λ m. m.upstream_id) matches)
        × (hint ≡ first_hint lower slug entries)
  unfolding conclude
  conclude-ambiguous slug d slug' d' hint ids entries [] h = cc
  conclude-ambiguous slug d slug' d' hint ids entries (e ∷ []) h = cc
  conclude-ambiguous slug d slug' d' hint ids entries (e ∷ e' ∷ es) h = (e, inl refl, cc, cc)

  first_hint-HasSlug :
      (slug : Text) (entries : List PresetEntry) (e : PresetEntry)
      → In e entries
      → HasSlug slug e
      → (x : PresetEntry) × In x entries
        × HasSlug slug x
        × (first_hint lower slug entries ≡ slug_with_id lower x.desc_short x.location x.upstream_id)
  unfolding first_hint
  first_hint-HasSlug slug entries e m h =
      let (x, found) = find-In (collides lower slug) e entries m ((collides_lem slug e).1 h) in
      let r = find-some (collides lower slug) x entries found in
      (x, r.0, (collides_lem slug x).0 r.1, ap (hint_of lower) found)

  -- The hint of an ambiguity error can be followed: if `unicode.ToLower` leaves a-z, 0-9 and the
  -- dash alone, the slug that was asked for is not empty and the ids of the catalog are not
  -- negative and have at most 18 digits, then the hint resolves, in the same catalog, to an entry
  -- whose full or short slug is the one that was asked for.
  pub match_preset_slug-hint :
      (slug slug' d d' hint : Text) (ids : List ℤ) (entries : List PresetEntry)
      → IsLower lower
      → All HasShortId entries
      → is_empty (normalize lower slug) ≡ false
      → match_preset_slug lower slug entries d ≡ err (preset_ambiguous slug' ids d' hint)
      → (e : PresetEntry) × In e entries
        × HasSlug (normalize lower slug) e
        × (match_preset_slug lower hint entries d ≡ ok e.upstream_id)
  match_preset_slug-hint slug slug' d d' hint ids entries l all h e =
      let s = normalize lower slug in
      let a = match_preset_slug-err lower slug entries d _ e in
      let (x, m, eqs, hinted) = conclude-ambiguous s d slug' d' hint ids entries _ a in
      let r = slug_matches-Names lower s entries x m in
      let (y, y_in, y_has, y_hint) = first_hint-HasSlug s entries x r.0 r.1 in
      let (n, p, lt) = All-In HasShortId y entries all y_in in
      (
        y,
        y_in,
        y_has,
        subst (λ t. match_preset_slug lower t entries d ≡ ok y.upstream_id) (sym (hinted ∙ y_hint))
            (match_preset_slug-slug_with_id lower l y n entries d y_in p lt
              (not_empty-HasSlug s y h y_has)),
      )
