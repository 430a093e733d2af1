-- ===== src/Resolver/Configurator/Choice.antt =====
-- What `SelectConfigurator` of resolver/select_configurator.go chooses.
use crossplane_provider_time.Prelude.{
  ℕ, ◌≡◌, refl, ◌↔◌, inl, inr, Text, false, List, [], ◌∷◌, In, All-In, subst, sym, ap, ◌∙◌,
}
use crossplane_provider_time.Resolver.Errors.{ok, err}
use crossplane_provider_time.Resolver.Configurator.{
  ConfiguratorEntry, ConfiguratorInput, ConfiguratorOutput, less, sort_stable, choose, candidates,
  select_configurator,
}
use crossplane_provider_time.Resolver.Configurator.Eligible.{IsEligible}
use crossplane_provider_time.Resolver.Configurator.Stages.{Keeps-candidates, Result-cases}
use crossplane_provider_time.Resolver.Configurator.Order.{
  less_antisym, In-sort_stable, LeastFirst, sort_stable-LeastFirst,
}

module _ (lower : ℕ → ℕ) (input : ConfiguratorInput) (d : Text) where
  -- An eligible entry of the catalog that none of the eligible entries comes before.
  pub record IsTightest (entries : List ConfiguratorEntry) (e : ConfiguratorEntry) : Type 0 where
    pub listed : In e entries
    pub eligible : IsEligible lower input e
    pub tightest :
        (x : ConfiguratorEntry) → In x entries → IsEligible lower input x → less x e ≡ false

  choose-ok :
      (l sorted : List ConfiguratorEntry) (out : ConfiguratorOutput)
      → sort_stable l ≡ sorted
      → choose input d sorted ≡ ok out
      → (e : ConfiguratorEntry) × In e l
        × (out ≡ record { upstream_id = e.upstream_id; locked_sizing = input.sizing })
        × ((x : ConfiguratorEntry) → In x l → less x e ≡ false)
  unfolding choose
  choose-ok l [] out s h = cc
  choose-ok l (e ∷ es) out s h =
      let least : LeastFirst (e ∷ es) = subst LeastFirst s (sort_stable-LeastFirst l) in
      (
        e,
        (In-sort_stable e l).0 (subst (In e) (sym s) (inl refl)),
        cc,
        (λ x i.
            All-In (λ y. less y e ≡ false) x (e ∷ es) least
              (subst (In x) s ((In-sort_stable x l).1 i))),
      )

  -- The chosen configurator is eligible and the tightest fit: it is in the catalog, passes the
  -- filters, the tags and the sizes, is of a standard family, and no other eligible entry comes
  -- before it; the sizes that are locked are the ones that were asked for.
  pub select_configurator-IsTightest :
      (entries : List ConfiguratorEntry) (out : ConfiguratorOutput)
      → select_configurator lower input d entries ≡ ok out
      → (e : ConfiguratorEntry) × IsTightest entries e
        × (out.upstream_id ≡ e.upstream_id)
        × (out.locked_sizing ≡ input.sizing)
  unfolding select_configurator
  select_configurator-IsTightest entries out h =
      elim (Result-cases (candidates lower input d entries)) [
        | inl (l, c) ↦
            let (e, i, o, least) = choose-ok l (sort_stable l) out refl (rw c at h) in
            let keeps = Keeps-candidates lower input d in
            let r = (keeps.sound entries l e c).0 i in
            (
              e,
              record {
                listed = r.0;
                eligible = r.1;
                tightest = λ x j p. least x ((keeps.sound entries l x c).1 (j, p));
              },
              rw o,
              rw o,
            )
        | inr (x, c) ↦ let k : err x ≡ ok out = rw c at h in cc
      ]

  choose-total :
      (x : ConfiguratorEntry) (l : List ConfiguratorEntry)
      → In x l
      → (out : ConfiguratorOutput) × (choose input d l ≡ ok out)
  unfolding choose
  choose-total x [] i = absurd i
  choose-total x (e ∷ es) i = (_, refl)

  -- A configurator is chosen wherever the catalog has an eligible one.
  pub select_configurator-total :
      (entries : List ConfiguratorEntry) (x : ConfiguratorEntry)
      → In x entries
      → IsEligible lower input x
      → (out : ConfiguratorOutput) × (select_configurator lower input d entries ≡ ok out)
  unfolding select_configurator
  select_configurator-total entries x i p =
      let keeps = Keeps-candidates lower input d in
      let (l, c) = keeps.total entries x i p in
      let j = (keeps.sound entries l x c).1 (i, p) in
      rw c (choose-total x (sort_stable l) ((In-sort_stable x l).1 j))

  ConfiguratorOutput-ext :
      (o o' : ConfiguratorOutput)
      → o.upstream_id ≡ o'.upstream_id
      → o.locked_sizing ≡ o'.locked_sizing
      → o ≡ o'
  ConfiguratorOutput-ext o o' p q = λ i. record { upstream_id = p i; locked_sizing = q i }

  -- The choice does not depend on the order of the catalog, nor on repeated entries: what is
  -- chosen from a catalog is chosen from every catalog with the same entries.
  pub select_configurator-order :
      (entries entries' : List ConfiguratorEntry) (out : ConfiguratorOutput)
      → ((x : ConfiguratorEntry) → In x entries ↔ In x entries')
      → select_configurator lower input d entries ≡ ok out
      → select_configurator lower input d entries' ≡ ok out
  select_configurator-order entries entries' out both h =
      let (e, t, p, q) = select_configurator-IsTightest entries out h in
      let (out', h') = select_configurator-total entries' e ((both e).0 t.listed) t.eligible in
      let (e', t', p', q') = select_configurator-IsTightest entries' out' h' in
      let k = t.tightest e' ((both e').1 t'.listed) t'.eligible in
      let k' = t'.tightest e ((both e).0 t.listed) t.eligible in
      let same_out =
        ConfiguratorOutput-ext out' out (p' ∙ less_antisym e' e k k' ∙ sym p) (q' ∙ sym q) in
      h' ∙ ap ok same_out
