-- ===== src/Kubernetes/Match.antt =====
-- Which clusters `findClustersByName` of internal/controller/kubernetes/cluster_external.go takes
-- for the one of the resource.
use crossplane_provider_time.Prelude.{
  ◌≡◌, refl, ◌↔◌, ◌⊎◌, inl, inr, Text, List, [], ◌∷◌, ◌++◌, Option, none, some, Bool, true, false,
  not, ◌&&◌, Bool-cases, same, same_iff, keep, All, arith,
}
use crossplane_provider_time.Prelude.Int.{ℤ, pos, eq_ℤ, eq_ℤ_iff}
use crossplane_provider_time.Resolver.Slug.{is_empty}
use crossplane_provider_time.Resolver.Size.Laws.{is_empty_iff}
use crossplane_provider_time.Kubernetes.{ClusterBody}
use crossplane_provider_time.Kubernetes.Create.{other_project, matches}

-- The cluster has the name, and as far as both sides tell, it is in the zone and in the project.
pub record IsMatch (name az : Text) (project : Option ℤ) (c : ClusterBody) : Type 0 where
  pub named : c.name ≡ name
  pub in_zone : (az ≡ []) ⊎ (c.availability_zone ≡ []) ⊎ (c.availability_zone ≡ az)
  pub in_project : (p : ℤ) → project ≡ some p → (c.project_id ≡ pos 0) ⊎ (c.project_id ≡ p)

-- It is the only cluster of the list that matches.
pub record IsOnly (name az : Text) (project : Option ℤ) (c : ClusterBody) (l : List ClusterBody)
    : Type 0 where
  pub earlier : List ClusterBody
  pub later : List ClusterBody
  pub splits : l ≡ earlier ++ (c ∷ later)
  pub matching : IsMatch name az project c
  pub none_earlier : All (λ d. ¬ IsMatch name az project d) earlier
  pub none_later : All (λ d. ¬ IsMatch name az project d) later

abbrev other_zone : Text → Text → Bool
other_zone az had = not (is_empty az) && not (is_empty had) && not (same had az)

same_zone : (az had : Text) → (az ≡ []) ⊎ (had ≡ []) ⊎ (had ≡ az) → other_zone az had ≡ false
same_zone az had (inl e) = ground (arith, (is_empty_iff az).1 e)
same_zone az had (inr (inl e)) = ground (arith, (is_empty_iff had).1 e)
same_zone az had (inr (inr e)) = ground (arith, (same_iff had az).1 e)

zone_of : (az had : Text) → other_zone az had ≡ false → (az ≡ []) ⊎ (had ≡ []) ⊎ (had ≡ az)
zone_of az had f = elim (Bool-cases (is_empty az)) [
  | inl t ↦ inl ((is_empty_iff az).0 t)
  | inr a ↦ elim (Bool-cases (is_empty had)) [
    | inl t ↦ inr (inl ((is_empty_iff had).0 t))
    | inr b ↦ inr (inr ((same_iff had az).0 (ground arith)))
  ]
]

same_project :
    (project : Option ℤ) (had : ℤ)
    → ((p : ℤ) → project ≡ some p → (had ≡ pos 0) ⊎ (had ≡ p))
    → other_project project had ≡ false
same_project none had h = refl
same_project (some p) had h = elim (h p refl) [
  | inl e ↦ ground (arith, (eq_ℤ_iff had (pos 0)).1 e)
  | inr e ↦ ground (arith, (eq_ℤ_iff had p).1 e)
]

project_of :
    (project : Option ℤ) (had : ℤ)
    → other_project project had ≡ false
    → (p : ℤ) → project ≡ some p
    → (had ≡ pos 0) ⊎ (had ≡ p)
project_of none had f p e = cc
project_of (some q) had f p e = elim (Bool-cases (eq_ℤ had (pos 0))) [
  | inl t ↦ inl ((eq_ℤ_iff had (pos 0)).0 t)
  | inr a ↦
      let t : eq_ℤ had q ≡ true = ground arith in let h : had ≡ q = (eq_ℤ_iff had q).0 t in inr (cc)
]

pub matches_iff :
    (name az : Text) (project : Option ℤ) (c : ClusterBody)
    → (matches name az project c ≡ true) ↔ IsMatch name az project c
unfolding matches
matches_iff name az project c = (
  (λ t. record {
    named = (same_iff c.name name).0 (ground arith);
    in_zone = zone_of az c.availability_zone (ground arith);
    in_project = project_of project c.project_id (ground arith);
  }),
  (λ m.
      let n = (same_iff c.name name).1 m.named in
      let z = same_zone az c.availability_zone m.in_zone in
      let p = same_project project c.project_id m.in_project in ground arith),
)

module _ (name az : Text) (project : Option ℤ) where
  keep-none :
      (l r : List ClusterBody)
      → All (λ d. ¬ IsMatch name az project d) l
      → keep (matches name az project) (l ++ r) ≡ keep (matches name az project) r
  keep-none [] r h = refl
  keep-none (d ∷ l) r (n, h) = elim (Bool-cases (matches name az project d)) [
    | inl t ↦ absurd (n ((matches_iff name az project d).0 t))
    | inr f ↦ rw f (keep-none l r h)
  ]

  keep-nothing :
      (l : List ClusterBody)
      → All (λ d. ¬ IsMatch name az project d) l
      → keep (matches name az project) l ≡ []
  keep-nothing [] h = refl
  keep-nothing (d ∷ l) (n, h) = elim (Bool-cases (matches name az project d)) [
    | inl t ↦ absurd (n ((matches_iff name az project d).0 t))
    | inr f ↦ rw f (keep-nothing l h)
  ]

  pub only_kept :
      (c : ClusterBody) (l : List ClusterBody)
      → IsOnly name az project c l
      → keep (matches name az project) l ≡ c ∷ []
  only_kept c l o =
      rw
        (
          o.splits,
          keep-none o.earlier (c ∷ o.later) o.none_earlier,
          (matches_iff name az project c).1 o.matching,
          keep-nothing o.later o.none_later,
        )
        refl
