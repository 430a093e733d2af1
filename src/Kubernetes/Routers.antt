-- ===== src/Kubernetes/Routers.antt =====
-- What the listing of the routers shows: `readIntegrationState` of
-- internal/controller/kubernetes/router_integration.go.
use crossplane_provider_time.Prelude.{
  ◌≡◌, refl, inl, inr, ◌⊎◌, Text, List, [], ◌∷◌, Bool, true, false, not, ◌&&◌, if◌then◌else◌, same,
  same_iff, In, Bool-cases, arith,
}
use crossplane_provider_time.Prelude.Int.{ℤ}
use crossplane_provider_time.Resolver.Slug.{is_empty}
use crossplane_provider_time.Kubernetes.{RouterNetwork, RouterOut}
use crossplane_provider_time.Kubernetes.Integration.{
  IntegrationState, text_or_empty, serves_cluster, read_networks, read_router, read_routers,
  integration_of, must_wait,
}

not-true : (b : Bool) → not b ≡ true → b ≡ false
not-true b h = ground arith

module _ (id : ℤ) (declared network : Text) (routers : List RouterOut) where
  -- The declared router is listed.
  abbrev pub HasRouter : RouterOut → Type 0
  HasRouter r = In r routers × (r.id ≡ declared)

  -- The network has a NAT address there.
  abbrev pub HasNat : RouterOut → Type 0
  HasNat r =
      (n : RouterNetwork) × In n r.networks
      × (n.id ≡ network)
      × (is_empty (text_or_empty n.nat_ip) ≡ false)

  -- The router serves the cluster.
  abbrev pub Serves : Type 0
  Serves =
      (r : RouterOut) × In r routers × (serves_cluster id declared network r.parent_services ≡ true)

  -- What was read is so in the listing.
  record IsRead (st : IntegrationState) : Type 0 where
    declared_listed : st.declared_found ≡ true → (r : RouterOut) × HasRouter r
    nat_listed : st.declared_has_nat ≡ true → (r : RouterOut) × HasRouter r × HasNat r
    net_known : st.declared_net_seen ≡ not (is_empty network)
    served : is_empty st.integrated_with ≡ false → Serves

  read_networks-IsRead :
      (r : RouterOut) (ns : List RouterNetwork) (st : IntegrationState)
      → HasRouter r
      → ((n : RouterNetwork) → In n ns → In n r.networks)
      → IsRead st
      → IsRead (read_networks id declared network ns st)
  unfolding read_networks
  read_networks-IsRead r [] st h sub k = k
  read_networks-IsRead r (n ∷ ns) st h sub k = elim (Bool-cases (same n.id network)) [
    | inl t ↦ rw t (
        read_networks-IsRead r ns _ h (λ m i. sub m (inr i))
          (record {
            declared_listed = k.declared_listed;
            nat_listed =
                λ a. (r, h, (n, sub n (inl refl), (same_iff n.id network).0 t, not-true _ a));
            net_known = k.net_known;
            served = k.served;
          }))
    | inr f ↦ rw f (read_networks-IsRead r ns st h (λ m i. sub m (inr i)) k)
  ]

  declared_router-IsRead :
      (r : RouterOut) (st : IntegrationState)
      → In r routers
      → IsRead st
      → IsRead (
          if not (is_empty declared) && same r.id declared
          then read_networks id declared network r.networks (record st { declared_found = true })
          else st)
  declared_router-IsRead r st m k =
      elim (Bool-cases (not (is_empty declared) && same r.id declared)) [
        | inl t ↦
            let q : r.id ≡ declared = (same_iff r.id declared).0 (ground arith) in
            rw t (
              read_networks-IsRead r r.networks _ (m, q) (λ n i. i)
                (record {
                  declared_listed = λ _. (r, (m, q));
                  nat_listed = k.nat_listed;
                  net_known = k.net_known;
                  served = k.served;
                }))
        | inr f ↦ rw f k
      ]

  read_router-IsRead :
      (r : RouterOut) (st : IntegrationState)
      → In r routers
      → IsRead st
      → IsRead (read_router id declared network r st)
  unfolding read_router
  read_router-IsRead r st m k =
      elim (Bool-cases (serves_cluster id declared network r.parent_services)) [
        | inl t ↦ rw t (
            declared_router-IsRead r _ m (record {
              declared_listed = k.declared_listed;
              nat_listed = k.nat_listed;
              net_known = k.net_known;
              served = λ _. (r, m, t);
            }))
        | inr f ↦ rw f (declared_router-IsRead r st m k)
      ]

  read_routers-IsRead :
      (rs : List RouterOut) (st : IntegrationState)
      → ((r : RouterOut) → In r rs → In r routers)
      → IsRead st
      → IsRead (read_routers id declared network rs st)
  unfolding read_routers
  read_routers-IsRead [] st sub k = k
  read_routers-IsRead (r ∷ rs) st sub k =
      read_routers-IsRead rs (read_router id declared network r st) (λ q i. sub q (inr i))
        (read_router-IsRead r st (sub r (inl refl)) k)

  integration_of-IsRead : IsRead (integration_of id declared network routers)
  unfolding integration_of is_empty
  integration_of-IsRead =
      read_routers-IsRead routers _ (λ r i. i)
        (record {
          declared_listed = λ h. cc;
          nat_listed = λ h. cc;
          net_known = refl;
          served = λ h. cc;
        })

  -- The declared router may be attached: it is listed, and a network that is known has a NAT
  -- address on it.
  abbrev pub IsAttachable : Type 0
  IsAttachable = (r : RouterOut) × HasRouter r × ((is_empty network ≡ true) ⊎ HasNat r)

  pub must_wait-IsAttachable :
      must_wait (integration_of id declared network routers) ≡ false → IsAttachable
  unfolding must_wait
  must_wait-IsAttachable h =
      let st = integration_of id declared network routers in
      let k = integration_of-IsRead in
      elim (Bool-cases (is_empty network)) [
        | inl t ↦ let found = k.declared_listed (ground arith) in (found.0, found.1, inl t)
        | inr f ↦
            let known : st.declared_net_seen ≡ true = (rw f at k.net_known) in
            let nat = k.nat_listed (ground arith) in (nat.0, nat.1, inr nat.2)
      ]

  pub integrated_with-Serves :
      is_empty (integration_of id declared network routers).integrated_with ≡ false → Serves
  integrated_with-Serves h = integration_of-IsRead.served h
