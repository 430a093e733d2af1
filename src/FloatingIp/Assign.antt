-- ===== src/FloatingIp/Assign.antt =====
-- What the loops of internal/controller/compute/floatingip_bind.go make of the bindings.
use crossplane_provider_time.Prelude.{
  ◌≡◌, refl, ap, sym, ◌∙◌, inl, inr, ◌⊎◌, Text, List, [], ◌∷◌, Option, none, some, Bool, true,
  false, not, ◌&&◌, if◌then◌else◌, Bool-cases, keep, contains, same, same_iff,
}
use crossplane_provider_time.Prelude.Int.{ℤ}
use crossplane_provider_time.Prelude.Run.{◌>>◌, attempt, bind-ended, bind-returned}
use crossplane_provider_time.FloatingIp.{
  Outcome, returned, failed, not_found, FloatingIp, FloatingIpApi, server_of, is_server,
  bound_server, floating_ip_bound_server, observe_each, bind_floating_ip, unbound,
  unbind_floating_ip, unbind_each, bind_each,
}

-- An upstream that answers with what `holder` says, and carries out the requests.
pub record IsFaithful {S : Type 0} (api : FloatingIpApi S) (holder : S → Text → Option ℤ)
    : Type 0 where
  pub shows :
      (id : Text) (s : S)
      → ((ip : FloatingIp) × (api.get_floating_ip id s ≡ (returned ip, s))
          × (server_of ip ≡ holder s id))
        ⊎ ((api.get_floating_ip id s ≡ (failed not_found, s)) × (holder s id ≡ none))
  pub binds :
      (id : Text) (n : ℤ) (s : S)
      → ((api.bind_floating_ip id n s).0 ≡ returned tt)
        × ((k : Text)
            → holder (api.bind_floating_ip id n s).1 k ≡ (if same id k then some n else holder s k))
  pub unbinds :
      (id : Text) (s : S)
      → (((api.unbind_floating_ip id s).0 ≡ returned tt)
          ⊎ ((api.unbind_floating_ip id s).0 ≡ failed not_found))
        × ((k : Text)
            → holder (api.unbind_floating_ip id s).1 k ≡ (if same id k then none else holder s k))

module _ {S : Type 0} (api : FloatingIpApi S) (float32 : ℤ → ℤ) (server : ℤ)
    (holder : S → Text → Option ℤ) (faithful : IsFaithful api holder) where
  bound_server-holder :
      (id : Text) (s : S)
      → floating_ip_bound_server api float32 server id s ≡ (returned (holder s id), s)
  unfolding floating_ip_bound_server bound_server attempt
  bound_server-holder id s = elim (faithful.shows id s) [
    | inl p ↦ rw (p.1, p.2) refl
    | inr q ↦ rw (q.0, q.1) refl
  ]

  pub observe_each-keep :
      (ids : List Text) (s : S)
      → observe_each api float32 server ids s
        ≡ (returned (keep (λ id. is_server server (holder s id)) ids), s)
  unfolding observe_each
  observe_each-keep [] s = refl
  observe_each-keep (id ∷ ids) s =
      bind-ended _ _ s s (holder s id) (bound_server-holder id s)
      ∙ bind-ended _ _ s s _ (observe_each-keep ids s)

  -- A run that succeeds, with what the IPs are then bound to.
  abbrev pub Ends : Outcome (Unit {0}) × S → (Text → Option ℤ) → Type 0
  Ends r after = (r.0 ≡ returned tt) × ((k : Text) → holder r.1 k ≡ after k)

  unbind-Ends :
      (id : Text) (s : S)
      → Ends
          (unbind_floating_ip api float32 server id s)
          (λ k. if same id k then none else holder s k)
  unfolding unbind_floating_ip unbound attempt
  unbind-Ends id s =
      let after = (faithful.unbinds id s).1 in
      elim (faithful.unbinds id s).0 [ inl p ↦ rw p (refl, after) | inr p ↦ rw p (refl, after) ]

  pub Ends-then :
      (m n : S → Outcome (Unit {0}) × S) (s : S) (f g : Text → Option ℤ)
      → Ends (m s) f
      → ((u : S) → ((k : Text) → holder u k ≡ f k) → Ends (n u) g)
      → Ends ((m >> n) s) g
  Ends-then m n s f g h next = rw (bind-returned m (λ _. n) s tt h.0) (next (m s).1 h.1)

  pub Ends-as :
      (r : Outcome (Unit {0}) × S) (f g : Text → Option ℤ)
      → Ends r f
      → ((k : Text) → f k ≡ g k)
      → Ends r g
  Ends-as r f g h e = (h.0, λ k. h.1 k ∙ e k)

  abbrev pub taken : List Text → List Text → (Text → Option ℤ) → Text → Option ℤ
  taken desired ids f k = if contains ids k && not (contains desired k) then none else f k

  taken_skip :
      (desired ids : List Text) (id : Text) (f : Text → Option ℤ) (k : Text)
      → contains desired id ≡ true
      → taken desired ids f k ≡ taken desired (id ∷ ids) f k
  unfolding contains
  taken_skip desired ids id f k h = elim (Bool-cases (same id k)) [
    | inl t ↦
        let d : contains desired k ≡ true = ap (contains desired) (sym ((same_iff id k).0 t)) ∙ h in
        rw (t, d) (elim (Bool-cases (contains ids k)) [ inl c ↦ rw c refl | inr c ↦ rw c refl ])
    | inr t ↦ rw t refl
  ]

  taken_one :
      (desired ids : List Text) (id : Text) (f : Text → Option ℤ) (k : Text)
      → contains desired id ≡ false
      → taken desired ids (λ j. if same id j then none else f j) k ≡ taken desired (id ∷ ids) f k
  unfolding contains
  taken_one desired ids id f k h = elim (Bool-cases (same id k)) [
    | inl t ↦
        let d : contains desired k ≡ false =
          ap (contains desired) (sym ((same_iff id k).0 t)) ∙ h in
        rw (t, d) (elim (Bool-cases (contains ids k)) [ inl c ↦ rw c refl | inr c ↦ rw c refl ])
    | inr t ↦ rw t refl
  ]

  pub unbind_each-Ends :
      (desired ids : List Text) (s : S) (f : Text → Option ℤ)
      → ((k : Text) → holder s k ≡ f k)
      → Ends (unbind_each api float32 server desired ids s) (taken desired ids f)
  unfolding unbind_each contains
  unbind_each-Ends desired [] s f h = (refl, h)
  unbind_each-Ends desired (id ∷ ids) s f h = elim (Bool-cases (contains desired id)) [
    | inl t ↦
        rw t (
          Ends-as _ _ _ (unbind_each-Ends desired ids s f h) (λ k. taken_skip desired ids id f k t))
    | inr t ↦ rw t (
        Ends-then _ _ s _ _ (unbind-Ends id s) (λ u e.
          Ends-as _ _ _
            (unbind_each-Ends desired ids u (λ j. if same id j then none else f j)
              (λ k. e k ∙ ap (λ o. if same id k then none else o) (h k)))
            (λ k. taken_one desired ids id f k t)))
  ]

  abbrev pub given : Bool → List Text → List Text → (Text → Option ℤ) → Text → Option ℤ
  given server_on bound ids f k =
      if server_on && (contains ids k && not (contains bound k)) then some (float32 server) else f k

  given_skip :
      (bound ids : List Text) (id : Text) (f : Text → Option ℤ) (k : Text)
      → contains bound id ≡ true
      → given true bound ids f k ≡ given true bound (id ∷ ids) f k
  unfolding contains
  given_skip bound ids id f k h = elim (Bool-cases (same id k)) [
    | inl t ↦
        let d : contains bound k ≡ true = ap (contains bound) (sym ((same_iff id k).0 t)) ∙ h in
        rw (t, d) (elim (Bool-cases (contains ids k)) [ inl c ↦ rw c refl | inr c ↦ rw c refl ])
    | inr t ↦ rw t refl
  ]

  given_one :
      (bound ids : List Text) (id : Text) (f : Text → Option ℤ) (k : Text)
      → contains bound id ≡ false
      → given true bound ids (λ j. if same id j then some (float32 server) else f j) k
        ≡ given true bound (id ∷ ids) f k
  unfolding contains
  given_one bound ids id f k h = elim (Bool-cases (same id k)) [
    | inl t ↦
        let d : contains bound k ≡ false = ap (contains bound) (sym ((same_iff id k).0 t)) ∙ h in
        rw (t, d) (elim (Bool-cases (contains ids k)) [ inl c ↦ rw c refl | inr c ↦ rw c refl ])
    | inr t ↦ rw t refl
  ]

  pub bind_each-Ends :
      (bound ids : List Text) (server_on : Bool) (s : S) (f : Text → Option ℤ)
      → ((k : Text) → holder s k ≡ f k)
      → Ends (bind_each api float32 server bound server_on ids s) (given server_on bound ids f)
  unfolding bind_each bind_floating_ip contains
  bind_each-Ends bound [] true s f h = (refl, h)
  bind_each-Ends bound [] false s f h = (refl, h)
  bind_each-Ends bound (id ∷ ids) false s f h = elim (Bool-cases (contains bound id)) [
    | inl t ↦ rw t (bind_each-Ends bound ids false s f h)
    | inr t ↦ rw t (refl, h)
  ]
  bind_each-Ends bound (id ∷ ids) true s f h = elim (Bool-cases (contains bound id)) [
    | inl t ↦
        rw t
          (Ends-as _ _ _ (bind_each-Ends bound ids true s f h) (λ k. given_skip bound ids id f k t))
    | inr t ↦ rw t (
        Ends-then _ _ s _ _ (faithful.binds id (float32 server) s) (λ u e.
          Ends-as _ _ _
            (bind_each-Ends bound ids true u (λ j. if same id j then some (float32 server) else f j)
              (λ k. e k ∙ ap (λ o. if same id k then some (float32 server) else o) (h k)))
            (λ k. given_one bound ids id f k t)))
  ]
