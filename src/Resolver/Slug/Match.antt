-- ===== src/Resolver/Slug/Match.antt =====
-- What `MatchPresetSlug` of resolver/slug.go answers, case by case.
use mathlib.Core.Option
use crossplane_provider_time.Prelude.{
  sym, ap, subst, ◌∙◌, ℕ, ◌≡◌, refl, ◌↔◌, ◌⊎◌, inl, inr, Text, Option, none, some, List, [], ◌∷◌,
  In, In-keep, keep-In, same_iff, find-some, find-In,
}
use crossplane_provider_time.Prelude.Int.{ℤ}
use crossplane_provider_time.Resolver.Errors.{ok, err, ResolverError, preset_not_found}
use crossplane_provider_time.Resolver.Slug.{
  PresetEntry, split_disambiguator, normalize, entry_slug, is_explicit, find_base, find_split,
  find_explicit, answer, or_short, by_full, by_short, slug_matches, conclude, valid_slugs,
  match_preset_slug,
}
use crossplane_provider_time.Resolver.Slug.Explicit.{is_explicit_lem}

module _ (lower : ℕ → ℕ) where
  -- How a canonical slug can name an entry.
  pub data Names (slug : Text) (e : PresetEntry) : Type 0 where
    full : entry_slug lower e ≡ slug → Names slug e
    short : normalize lower e.desc_short ≡ slug → Names slug e
    explicit :
        (base : Text)
        → split_disambiguator slug ≡ some (base, e.upstream_id)
        → entry_slug lower e ≡ base
        → Names slug e

  find_base-some :
      (base : Text) (n id : ℤ) (entries : List PresetEntry)
      → find_base lower entries (base, n) ≡ some id
      → (e : PresetEntry) × In e entries
        × (e.upstream_id ≡ id)
        × (e.upstream_id ≡ n)
        × (entry_slug lower e ≡ base)
  find_base-some base n id entries h =
      let (e, found, same_id) = (Option.map-eq-some_iff _ _).0 h in
      let r = find-some (is_explicit lower base n) e entries found in
      let t = (is_explicit_lem lower base n e).0 r.1 in (e, r.0, same_id, t.0, t.1)

  find_split-Names :
      (slug : Text) (entries : List PresetEntry) (id : ℤ) (o : Option (Text × ℤ))
      → split_disambiguator slug ≡ o
      → find_split lower entries o ≡ some id
      → (e : PresetEntry) × In e entries × (e.upstream_id ≡ id) × Names slug e
  unfolding find_split
  find_split-Names slug entries id none s h = cc
  find_split-Names slug entries id (some (base, n)) s h =
      let (e, m, p, q, r) = find_base-some base n id entries h in
      (e, m, p, explicit base (s ∙ ap (λ k. some (base, k)) (sym q)) r)

  -- Each entry among the matches has the slug.
  pub slug_matches-Names :
      (slug : Text) (entries : List PresetEntry) (e : PresetEntry)
      → In e (slug_matches lower slug entries)
      → In e entries × ((entry_slug lower e ≡ slug) ⊎ (normalize lower e.desc_short ≡ slug))
  unfolding slug_matches
  slug_matches-Names slug entries e = go (by_full lower slug entries) refl
    where
      go :
          (fulls : List PresetEntry)
          → by_full lower slug entries ≡ fulls
          → In e (or_short lower slug entries fulls)
          → In e entries × ((entry_slug lower e ≡ slug) ⊎ (normalize lower e.desc_short ≡ slug))
      go [] eq m = let r = In-keep _ e entries m in (r.0, inr ((same_iff _ _).0 r.1))
      go (x ∷ xs) eq m =
          let r = In-keep _ e entries (subst (In e) (sym eq) m) in (r.0, inl ((same_iff _ _).0 r.1))

  pub Names-of_either :
      (slug : Text) (e : PresetEntry)
      → (entry_slug lower e ≡ slug) ⊎ (normalize lower e.desc_short ≡ slug)
      → Names slug e
  Names-of_either slug e (inl p) = full p
  Names-of_either slug e (inr p) = short p

  conclude-ok :
      (slug d : Text) (entries matches : List PresetEntry) (id : ℤ)
      → conclude lower slug d entries matches ≡ ok id
      → (e : PresetEntry) × (matches ≡ e ∷ []) × (e.upstream_id ≡ id)
  unfolding conclude
  conclude-ok slug d entries [] id h = cc
  conclude-ok slug d entries (e ∷ []) id h = (e, refl, cc)
  conclude-ok slug d entries (e ∷ e' ∷ es) id h = cc

  answer-Names :
      (slug d : Text) (entries : List PresetEntry) (id : ℤ) (o : Option ℤ)
      → find_explicit lower slug entries ≡ o
      → answer lower slug d entries o ≡ ok id
      → (e : PresetEntry) × In e entries × (e.upstream_id ≡ id) × Names slug e
  unfolding answer
  answer-Names slug d entries id (some n) f h =
      let k : n ≡ id = cc in
      find_split-Names slug entries id _ refl (unfold find_explicit in (f ∙ ap some k))
  answer-Names slug d entries id none f h =
      let (e, eq, p) = conclude-ok slug d entries (slug_matches lower slug entries) id h in
      let r = slug_matches-Names slug entries e (rw eq (inl refl)) in
      (e, r.0, p, Names-of_either slug e r.1)

  -- A slug resolves only to an entry of the catalog that it names: by its full slug, by its short
  -- slug, or by an explicit id together with its full slug.
  pub match_preset_slug-Names :
      (slug : Text) (entries : List PresetEntry) (d : Text) (id : ℤ)
      → match_preset_slug lower slug entries d ≡ ok id
      → (e : PresetEntry) × In e entries × (e.upstream_id ≡ id) × Names (normalize lower slug) e
  unfolding match_preset_slug
  match_preset_slug-Names slug entries d id h =
      answer-Names (normalize lower slug) d entries id _ refl h

  -- The catalog holds no entry that the slug names.
  abbrev pub NamesNone : Text → List PresetEntry → Type 0
  NamesNone slug entries = (e : PresetEntry) → In e entries → ¬ Names slug e

  none_of_NamesNone :
      (slug : Text) (entries : List PresetEntry)
      → NamesNone slug entries
      → (find_explicit lower slug entries ≡ none) × (slug_matches lower slug entries ≡ [])
  none_of_NamesNone slug entries h = (explicit_none _ refl, matches_none _ refl)
    where
      explicit_none :
          (o : Option ℤ)
          → find_explicit lower slug entries ≡ o
          → find_explicit lower slug entries ≡ none
      explicit_none none f = f
      explicit_none (some n) f =
          let (e, m, p, k) = find_split-Names slug entries n _ refl (unfold find_explicit in f) in
          absurd (h e m k)

      matches_none :
          (l : List PresetEntry)
          → slug_matches lower slug entries ≡ l
          → slug_matches lower slug entries ≡ []
      matches_none [] f = f
      matches_none (x ∷ xs) f =
          let r = slug_matches-Names slug entries x (rw f (inl refl)) in
          absurd (h x r.0 (Names-of_either slug x r.1))

  or_short_nil :
      (slug : Text) (entries l : List PresetEntry)
      → or_short lower slug entries l ≡ []
      → (l ≡ []) × (by_short lower slug entries ≡ [])
  unfolding or_short
  or_short_nil slug entries [] h = (refl, h)
  or_short_nil slug entries (x ∷ xs) h = cc

  not-In_of_nil : (e : PresetEntry) (l : List PresetEntry) → l ≡ [] → ¬ In e l
  not-In_of_nil e [] h m = m
  not-In_of_nil e (x ∷ xs) h m = cc

  NamesNone-of_none :
      (slug : Text) (entries : List PresetEntry)
      → find_explicit lower slug entries ≡ none
      → slug_matches lower slug entries ≡ []
      → NamesNone slug entries
  unfolding slug_matches
  NamesNone-of_none slug entries f g e m (full p) =
      not-In_of_nil e _ (or_short_nil slug entries _ g).0
        (keep-In _ e entries m ((same_iff _ _).1 p))
  NamesNone-of_none slug entries f g e m (short p) =
      not-In_of_nil e _ (or_short_nil slug entries _ g).1
        (keep-In _ e entries m ((same_iff _ _).1 p))
  NamesNone-of_none slug entries f g e m (explicit base s p) =
      let (b, found) =
        find-In (is_explicit lower base e.upstream_id) e entries m
          ((is_explicit_lem lower base e.upstream_id e).1 (refl, p)) in
      let k : find_explicit lower slug entries ≡ some b.upstream_id =
        unfold find_explicit find_split in rw (s, found) in
      cc

  answer-err :
      (slug d : Text) (entries : List PresetEntry) (x : ResolverError) (o : Option ℤ)
      → answer lower slug d entries o ≡ err x
      → (o ≡ none) × (conclude lower slug d entries (slug_matches lower slug entries) ≡ err x)
  unfolding answer
  answer-err slug d entries x none h = (refl, h)
  answer-err slug d entries x (some id) h = cc

  pub match_preset_slug-err :
      (slug : Text) (entries : List PresetEntry) (d : Text) (x : ResolverError)
      → match_preset_slug lower slug entries d ≡ err x
      → conclude lower
          (normalize lower slug)
          d
          entries
          (slug_matches lower (normalize lower slug) entries)
        ≡ err x
  unfolding match_preset_slug
  match_preset_slug-err slug entries d x h = (answer-err (normalize lower slug) d entries x _ h).1

  conclude-not_found :
      (slug d slug' d' l : Text) (valid : List Text) (entries matches : List PresetEntry)
      → conclude lower slug d entries matches ≡ err (preset_not_found slug' valid d' l)
      → matches ≡ []
  unfolding conclude
  conclude-not_found slug d slug' d' l valid entries [] h = refl
  conclude-not_found slug d slug' d' l valid entries (e ∷ []) h = cc
  conclude-not_found slug d slug' d' l valid entries (e ∷ e' ∷ es) h = cc

  -- The answer is "preset not found" exactly where the catalog holds no entry that the slug names,
  -- by its full slug, by its short slug or by the explicit form.
  pub match_preset_slug-not_found_iff :
      (slug : Text) (entries : List PresetEntry) (d : Text)
      → NamesNone (normalize lower slug) entries ↔ (
          match_preset_slug lower slug entries d
          ≡ err (preset_not_found (normalize lower slug) (valid_slugs lower entries) d []))
  unfolding match_preset_slug answer conclude
  match_preset_slug-not_found_iff slug entries d = (
    (λ h. let r = none_of_NamesNone (normalize lower slug) entries h in rw (r.0, r.1)),
    (λ h.
        let r = answer-err (normalize lower slug) d entries _ _ h in
        NamesNone-of_none (normalize lower slug) entries r.0
          (conclude-not_found (normalize lower slug) d _ _ _ _ entries _ r.1)),
  )
