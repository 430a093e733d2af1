-- ===== src/Resolver/Size/Laws.antt =====
-- The answers of `MatchPresetBySize` of resolver/match_size.go.
use crossplane_provider_time.Prelude.{
  ◌≡◌, refl, ◌↔◌, ◌⊎◌, inl, inr, Text, true, List, [], ◌∷◌, arith, same_iff, keep, In, In-keep,
  keep-In, subst, sym, ap, map,
}
use crossplane_provider_time.Prelude.Int.{ℤ, eq_ℤ_iff}
use crossplane_provider_time.Resolver.Errors.{ok, err, preset_not_found}
use crossplane_provider_time.Resolver.Slug.{PresetEntry, is_empty}
use crossplane_provider_time.Resolver.Size.{
  PresetBySizeInput, fits, describe_entry, size_slug, conclude, match_preset_by_size,
}

-- The entry has the size that was asked for, and the location and the storage class, where these
-- were given.
pub record Fits (i : PresetBySizeInput) (e : PresetEntry) : Type 0 where
  pub size : e.disk_gb ≡ i.disk_gb
  pub location : (i.location ≡ []) ⊎ (e.location ≡ i.location)
  pub storage_class : (i.storage_class ≡ []) ⊎ (e.storage_class ≡ i.storage_class)

-- Every entry of the list that fits is this one.
abbrev pub IsOnly : PresetBySizeInput → PresetEntry → List PresetEntry → Type 0
IsOnly i e entries = (x : PresetEntry) → In x entries → Fits i x → e ≡ x

-- No entry of the list fits.
abbrev pub FitsNone : PresetBySizeInput → List PresetEntry → Type 0
FitsNone i entries = (x : PresetEntry) → In x entries → ¬ Fits i x

pub is_empty_iff : (s : Text) → (is_empty s ≡ true) ↔ (s ≡ [])
unfolding is_empty
is_empty_iff [] = ((λ _. refl), (λ _. refl))
is_empty_iff (c ∷ s) = ((λ h. cc), (λ h. cc))

fits_iff : (i : PresetBySizeInput) (e : PresetEntry) → (fits i e ≡ true) ↔ Fits i e
unfolding fits
fits_iff i e = (
  (λ h. ground (
    arith,
    eq_ℤ_iff e.disk_gb i.disk_gb,
    is_empty_iff i.location,
    is_empty_iff i.storage_class,
    same_iff e.location i.location,
    same_iff e.storage_class i.storage_class,
  )),
  (λ h. ground (
    arith,
    eq_ℤ_iff e.disk_gb i.disk_gb,
    is_empty_iff i.location,
    is_empty_iff i.storage_class,
    same_iff e.location i.location,
    same_iff e.storage_class i.storage_class,
  )),
)

module _ (quote : Text → Text) (i : PresetBySizeInput) (d : Text) where
  conclude-ok :
      (entries matches : List PresetEntry) (id : ℤ)
      → conclude quote i entries d matches ≡ ok id
      → (e : PresetEntry) × (matches ≡ e ∷ []) × (e.upstream_id ≡ id)
  unfolding conclude
  conclude-ok entries [] id h = cc
  conclude-ok entries (e ∷ []) id h = (e, refl, cc)
  conclude-ok entries (e ∷ e' ∷ es) id h = cc

  -- A size resolves only to the one entry of the catalog that has it, in the location and the
  -- storage class that were asked for: the entry is in the catalog and fits, its id is the answer,
  -- and every entry that fits is this entry.
  pub match_preset_by_size_unique :
      (entries : List PresetEntry) (id : ℤ)
      → match_preset_by_size quote i entries d ≡ ok id
      → (e : PresetEntry) × In e entries × Fits i e × (e.upstream_id ≡ id) × IsOnly i e entries
  match_preset_by_size_unique entries id h =
      let (e, one, p) =
        conclude-ok entries (keep (fits i) entries) id (unfold match_preset_by_size in h) in
      let r = In-keep (fits i) e entries (subst (In e) (sym one) (inl refl)) in
      (
        e,
        r.0,
        (fits_iff i e).0 r.1,
        p,
        λ x m f. only e x (subst (In x) one (keep-In (fits i) x entries m ((fits_iff i x).1 f))),
      )
    where
      only : (e x : PresetEntry) → In x (e ∷ []) → e ≡ x
      only e x (inl p) = p
      only e x (inr m) = absurd m

  conclude-not_found :
      (entries matches : List PresetEntry) (slug d' l : Text) (hints : List Text)
      → conclude quote i entries d matches ≡ err (preset_not_found slug hints d' l)
      → matches ≡ []
  unfolding conclude
  conclude-not_found entries [] slug d' l hints h = refl
  conclude-not_found entries (e ∷ []) slug d' l hints h = cc
  conclude-not_found entries (e ∷ e' ∷ es) slug d' l hints h = cc

  keep_nil :
      (l : List PresetEntry) (entries : List PresetEntry)
      → keep (fits i) entries ≡ l
      → ((x : PresetEntry) → In x entries → ¬ Fits i x)
      → keep (fits i) entries ≡ []
  keep_nil [] entries e h = e
  keep_nil (x ∷ xs) entries e h =
      let r = In-keep (fits i) x entries (subst (In x) (sym e) (inl refl)) in
      absurd (h x r.0 ((fits_iff i x).0 r.1))

  -- The answer is "preset not found", with a description of every entry of the catalog, exactly
  -- where no entry of the catalog fits.
  pub match_preset_by_size-not_found_iff :
      (entries : List PresetEntry)
      → FitsNone i entries ↔ (
          match_preset_by_size quote i entries d
          ≡ err (preset_not_found (size_slug quote i) (map describe_entry entries) d []))
  match_preset_by_size-not_found_iff entries = (
    (λ h.
        let n = keep_nil _ entries refl h in
        unfold match_preset_by_size in (ap (conclude quote i entries d) n)),
    (λ h x m f.
        let n =
          conclude-not_found entries (keep (fits i) entries) (size_slug quote i) d []
            (map describe_entry entries) (unfold match_preset_by_size in h) in
        subst (In x) n (keep-In (fits i) x entries m ((fits_iff i x).1 f))),
  )
