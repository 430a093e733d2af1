-- ===== src/Resolver/Configurator/Stages.antt =====
-- The filter steps of resolver/select_configurator.go keep exactly the eligible configurators.
use crossplane_provider_time.Prelude.{
  ℕ, ◌≡◌, refl, ◌↔◌, ◌⊎◌, inl, inr, Text, Bool, true, false, not, map, Option, none, List, [], ◌∷◌,
  arith, keep, In, All, In-keep, keep-In, Option-cases, subst, sym,
}
use crossplane_provider_time.Resolver.Errors.{
  Reason, only_promo, ConfiguratorRejection, ResolverError, Result, ok, err, ◌>>=◌,
}
use crossplane_provider_time.Resolver.Configurator.{
  ConfiguratorEntry, ConfiguratorInput, match_filters, match_tags, match_sizing, passes,
  first_rejected, first_id, is_promo_entry, or_reject, reject, stage, some_entries, tag_stage,
  standard_stage, candidates,
}
use crossplane_provider_time.Resolver.Configurator.Eligible.{
  IsEligible, match_filters_iff, match_tags_from_iff, match_sizing_iff,
}

pub Result-cases {ℓ} :
    {A : Type ℓ} (r : Result A) → ((a : A) × (r ≡ ok a)) ⊎ ((x : ResolverError) × (r ≡ err x))
Result-cases (ok a) = inl (a, refl)
Result-cases (err x) = inr (x, refl)

-- A filter step keeps the entries of `l` with the property, and does not fail where there are any.
pub record Keeps (P : ConfiguratorEntry → Type 0)
    (f : List ConfiguratorEntry → Result (List ConfiguratorEntry)) : Type 0 where
  pub sound :
      (l l' : List ConfiguratorEntry) (x : ConfiguratorEntry)
      → f l ≡ ok l'
      → In x l' ↔ (In x l × P x)
  pub total :
      (l : List ConfiguratorEntry) (x : ConfiguratorEntry)
      → In x l
      → P x
      → (l' : List ConfiguratorEntry) × (f l ≡ ok l')

module _ {P Q : ConfiguratorEntry → Type 0} where
  Keeps-bind :
      {f g : List ConfiguratorEntry → Result (List ConfiguratorEntry)}
      → Keeps P f
      → Keeps Q g
      → Keeps (λ x. P x × Q x) (λ l. f l >>= g)
  Keeps-bind {f} {g} p q = record {
    sound = λ l l' x h. elim (Result-cases (f l)) [
      | inl (m, e) ↦
          let a = p.sound l m x e in
          let b = q.sound m l' x (rw e at h) in
          (
            (λ i. let j = b.0 i in let k = a.0 j.0 in (k.0, (k.1, j.1))),
            (λ i. b.1 (a.1 (i.0, i.1.0), i.1.1)),
          )
      | inr (y, e) ↦ let k : err y ≡ ok l' = rw e at h in cc
    ];
    total = λ l x i r.
        let (m, e) = p.total l x i r.0 in
        let (l', e') = q.total m x ((p.sound l m x e).1 (i, r.0)) r.1 in (l', rw e e');
  }

  Keeps-weaken :
      {f : List ConfiguratorEntry → Result (List ConfiguratorEntry)}
      → Keeps P f
      → ((x : ConfiguratorEntry) → P x ↔ Q x)
      → Keeps Q f
  Keeps-weaken p h = record {
    sound = λ l l' x e.
        let a = p.sound l l' x e in
        ((λ i. let j = a.0 i in (j.0, (h x).0 j.1)), (λ i. a.1 (i.0, (h x).1 i.1)));
    total = λ l x i q. p.total l x i ((h x).1 q);
  }

module _ (input : ConfiguratorInput) (d : Text) where
  or_reject-ok :
      (r : ConfiguratorRejection) (l l' : List ConfiguratorEntry)
      → or_reject input d r l ≡ ok l'
      → l ≡ l'
  unfolding or_reject reject
  or_reject-ok r [] l' h = cc
  or_reject-ok r (x ∷ xs) l' h = cc

  or_reject-total :
      (r : ConfiguratorRejection) (l : List ConfiguratorEntry) (x : ConfiguratorEntry)
      → In x l
      → or_reject input d r l ≡ ok l
  unfolding or_reject
  or_reject-total r [] x h = absurd h
  or_reject-total r (y ∷ ys) x h = refl

  -- A step that keeps by a test and rejects an empty rest.
  Keeps-filter :
      (test : ConfiguratorEntry → Bool) (r : List ConfiguratorEntry → ConfiguratorRejection)
      → Keeps (λ x. test x ≡ true) (λ l. or_reject input d (r l) (keep test l))
  Keeps-filter test r = record {
    sound = λ l l' x h.
        let e = or_reject-ok (r l) (keep test l) l' h in
        (
          (λ i. In-keep test x l (subst (In x) (sym e) i)),
          (λ i. subst (In x) e (keep-In test x l i.0 i.1)),
        );
    total = λ l x i t. (keep test l, or_reject-total (r l) (keep test l) x (keep-In test x l i t));
  }

  passes_iff :
      (test : ConfiguratorEntry → Option Reason) (x : ConfiguratorEntry)
      → (passes test x ≡ true) ↔ (test x ≡ none)
  unfolding passes
  passes_iff test x = elim (Option-cases (test x)) [
    | inl n ↦ rw (n, passes) ((λ h. refl), (λ h. refl))
    | inr (a, e) ↦ rw (e, passes) ((λ h. cc), (λ h. cc))
  ]

  Keeps-stage :
      (test : ConfiguratorEntry → Option Reason) → Keeps (λ x. test x ≡ none) (stage input d test)
  unfolding stage
  Keeps-stage test =
      Keeps-weaken (Keeps-filter (passes test) (first_rejected test)) (passes_iff test)

  Keeps-some_entries : Keeps (λ x. Unit {0}) (some_entries input d)
  unfolding some_entries
  Keeps-some_entries = record {
    sound = λ l l' x h.
        let e = or_reject-ok _ l l' h in
        ((λ i. (subst (In x) (sym e) i, tt)), (λ i. subst (In x) e i.0));
    total = λ l x i t. (l, or_reject-total _ l x i);
  }

  Keeps-tag_stage :
      (want : List Text) → Keeps (λ x. All (λ t. In t x.tags) want) (tag_stage input d want)
  unfolding tag_stage
  Keeps-tag_stage [] = record {
    sound = λ l l' x h.
        let e : l ≡ l' = cc in ((λ i. (subst (In x) (sym e) i, tt)), (λ i. subst (In x) e i.0));
    total = λ l x i t. (l, refl);
  }
  Keeps-tag_stage (t ∷ ts) =
      Keeps-weaken (Keeps-stage (λ e. match_tags e.tags (t ∷ ts)))
        (λ x. unfold match_tags in match_tags_from_iff (t ∷ ts) x.tags (t ∷ ts))

module _ (lower : ℕ → ℕ) (input : ConfiguratorInput) (d : Text) where
  Keeps-standard_stage : Keeps (λ x. is_promo_entry lower x ≡ false) (standard_stage lower input d)
  unfolding standard_stage
  Keeps-standard_stage =
      Keeps-weaken
        (Keeps-filter input d (λ e. not (is_promo_entry lower e))
          (λ l. record {
            upstream_id = first_id (keep (is_promo_entry lower) l);
            reason = only_promo (map (λ e. e.upstream_id) (keep (is_promo_entry lower) l));
          }))
        (λ x. ground arith)

  -- The steps before the choice keep exactly the eligible entries, and fail only without any.
  pub Keeps-candidates : Keeps (IsEligible lower input) (candidates lower input d)
  unfolding candidates
  Keeps-candidates =
      Keeps-weaken
        (Keeps-bind (Keeps-some_entries input d) (
          Keeps-bind (Keeps-stage input d (λ e. match_filters e.filters input.filters)) (
            Keeps-bind (Keeps-tag_stage input d input.require_tags) (
              Keeps-bind (Keeps-stage input d (λ e. match_sizing e.bounds input.sizing))
                Keeps-standard_stage))))
        (λ x.
          let f = match_filters_iff x.filters input.filters in
          let z = match_sizing_iff x.bounds input.sizing in
          (
            (λ h. record {
              filters = f.0 h.1.0;
              tags = h.1.1.0;
              sizing = z.0 h.1.1.1.0;
              standard = h.1.1.1.1;
            }),
            (λ e. (tt, (f.1 e.filters, (e.tags, (z.1 e.sizing, e.standard))))),
          ))
