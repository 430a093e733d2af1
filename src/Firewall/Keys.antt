-- ===== src/Firewall/Keys.antt =====
-- The keys of rules and attachments in internal/controller/network/firewall_external.go: which
-- rules count as duplicates, and when `rulesConverged` and `attachConverged` hold.
use crossplane_provider_time.Prelude.{
  ℕ, suc, ◌≡◌, refl, sym, subst, ap, ◌∙◌, ◌↔◌, inl, inr, Text, List, [], ◌∷◌, map, Bool, true,
  false, arith, Bool-cases, length, In, contains, contains_iff,
}
pub use crossplane_provider_time.Prelude.Distinct.{IsDistinct, SameKeys}
use crossplane_provider_time.Prelude.Distinct.{Subset, length-Subset, Subset-flip}
use crossplane_provider_time.Firewall.{Rule, RulePayload, Firewall}
use crossplane_provider_time.Firewall.Desired.{
  keys, all_wanted, converged, is_icmp, rule_key, payload_key, desired_rule, desired_from,
  desired_rule_set, rules_converged,
}

all_wanted_iff : (wanted ks : List Text) → (all_wanted wanted ks ≡ true) ↔ Subset ks wanted
unfolding all_wanted
all_wanted_iff wanted ks = (to ks, from ks)
  where
    to : (ks : List Text) → all_wanted wanted ks ≡ true → Subset ks wanted
    to (x ∷ ks) h k (inl e) = subst (λ y. In y wanted) e ((contains_iff wanted x).0 (ground arith))
    to (x ∷ ks) h k (inr m) = to ks (ground arith) k m
    to [] h k m = absurd m

    from : (ks : List Text) → Subset ks wanted → all_wanted wanted ks ≡ true
    from [] h = refl
    from (x ∷ ks) h =
        rw ((contains_iff wanted x).1 (h x (inl refl)), from ks (λ k m. h k (inr m))) refl

module _ {V : Type 0} where
  length-keys : (m : List (Text × V)) → length (keys m) ≡ length m
  length-keys [] = refl
  length-keys (p ∷ m) = ap suc (length-keys m)

  pub converged_iff :
      (desired : List (Text × V)) (observed : List Text)
      → IsDistinct (keys desired)
      → IsDistinct observed
      → (converged desired observed ≡ true) ↔ SameKeys (keys desired) observed
  unfolding converged
  converged_iff desired observed d o = (
    (λ h k.
        let len : length desired ≡ length observed = ground arith in
        let sub = (all_wanted_iff (keys desired) observed).0 (ground arith) in
        (
          Subset-flip observed (keys desired) o sub (omega (arith, len, length-keys desired)) k,
          sub k,
        )),
    (λ h.
        let le = length-Subset (keys desired) observed d (λ k. (h k).0) in
        let ge = length-Subset observed (keys desired) o (λ k. (h k).1) in
        let len : length desired ≡ length observed = omega (arith, le, ge, length-keys desired) in
        let all = (all_wanted_iff (keys desired) observed).1 (λ k. (h k).1) in ground arith),
  )

module _ (lower : ℕ → ℕ) where
  rule_key-desired_rule : (r : Rule) → rule_key lower (desired_rule lower r) ≡ rule_key lower r
  unfolding rule_key desired_rule
  rule_key-desired_rule r = elim (Bool-cases (is_icmp lower r.protocol)) [
    | inl t ↦ rw t refl
    | inr t ↦ rw t refl
  ]

  abbrev IsFresh : List (Text × Rule) → List Text → Type 0
  IsFresh out ks = (k : Text) → In k ks → ¬ In k (keys out)

  -- What the loop over the rules does: no duplicate is reported exactly if there is none.
  desired_from_iff :
      (rs : List Rule) (out : List (Text × Rule)) (dup : Bool)
      → ((desired_from lower out dup rs).1 ≡ false) ↔ (
          (dup ≡ false)
          × IsDistinct (map (rule_key lower) rs)
          × IsFresh out (map (rule_key lower) rs))
  unfolding desired_from
  desired_from_iff [] out dup = ((λ h. (h, tt, λ k m. absurd m)), (λ h. h.0))
  desired_from_iff (r ∷ rs) out dup =
      let same_key = rule_key-desired_rule r in
      elim (Bool-cases (contains (keys out) (rule_key lower (desired_rule lower r)))) [
        | inl t ↦
            let there = (contains_iff (keys out) (rule_key lower r)).0 (rw same_key at t) in
            let rest = desired_from_iff rs out true in
            rw t ((λ h. (let p = (rest.0 h).0 in cc)), (λ q. absurd (q.2 _ (inl refl) there)))
        | inr t ↦
            let rest = desired_from_iff rs ((_, desired_rule lower r) ∷ out) dup in
            rw t (
              (λ h. let q = rest.0 h in (q.0, (first q.2, q.1), spread q.2 t)),
              (λ q. rest.1 (q.0, q.1.1, added q.1.0 q.2)),
            )
      ]
    where
      key : Text
      key = rule_key lower (desired_rule lower r)

      ks : List Text
      ks = map (rule_key lower) rs

      first : IsFresh ((key, desired_rule lower r) ∷ out) ks → ¬ In (rule_key lower r) ks
      first f m = f (rule_key lower r) m (inl (rule_key-desired_rule r))

      spread :
          IsFresh ((key, desired_rule lower r) ∷ out) ks
          → contains (keys out) key ≡ false
          → IsFresh out (rule_key lower r ∷ ks)
      spread f t k (inl e) n =
          let c =
            (contains_iff (keys out) key).1
              (subst (λ y. In y (keys out)) (sym (rule_key-desired_rule r ∙ e)) n) in
          cc
      spread f t k (inr m) n = f k m (inr n)

      added :
          ¬ In (rule_key lower r) ks
          → IsFresh out (rule_key lower r ∷ ks)
          → IsFresh ((key, desired_rule lower r) ∷ out) ks
      added d f k m (inl e) = d (subst (λ y. In y ks) (sym (sym (rule_key-desired_rule r) ∙ e)) m)
      added d f k m (inr n) = f k (inr m) n

  -- No duplicate is reported exactly if the keys of the rules are distinct.
  pub desired_rule_set-duplicate_iff :
      (cr : Firewall)
      → ((desired_rule_set lower cr).1 ≡ false) ↔ IsDistinct (map (rule_key lower) cr.spec.rules)
  unfolding desired_rule_set
  desired_rule_set-duplicate_iff cr =
      let r = desired_from_iff cr.spec.rules [] false in
      ((λ h. (r.0 h).1), (λ d. r.1 (refl, d, λ k m n. n)))

  -- The desired set has each key once, and those of the specification only.
  desired_from-keys :
      (rs : List Rule) (out : List (Text × Rule)) (dup : Bool)
      → IsDistinct (keys out)
      → IsDistinct (keys (desired_from lower out dup rs).0)
  unfolding desired_from
  desired_from-keys [] out dup d = d
  desired_from-keys (r ∷ rs) out dup d =
      elim (Bool-cases (contains (keys out) (rule_key lower (desired_rule lower r)))) [
        | inl t ↦ rw t (desired_from-keys rs out true d)
        | inr t ↦ rw t (desired_from-keys rs _ dup (out_of t, d))
      ]
    where
      out_of :
          contains (keys out) (rule_key lower (desired_rule lower r)) ≡ false
          → ¬ In (rule_key lower (desired_rule lower r)) (keys out)
      out_of t m = let c = (contains_iff (keys out) _).1 m in cc

  pub desired_rule_set-IsDistinct :
      (cr : Firewall) → IsDistinct (keys (desired_rule_set lower cr).0)
  unfolding desired_rule_set
  desired_rule_set-IsDistinct cr = desired_from-keys cr.spec.rules [] false tt

  -- Where no two rules upstream have one key, the rules count as converged exactly if the keys
  -- upstream are the desired ones.
  pub rules_converged_iff :
      (cr : Firewall) (observed : List RulePayload)
      → IsDistinct (map (payload_key lower) observed)
      → (rules_converged lower (desired_rule_set lower cr).0 observed ≡ true)
        ↔ SameKeys (keys (desired_rule_set lower cr).0) (map (payload_key lower) observed)
  unfolding rules_converged
  rules_converged_iff cr observed o =
      converged_iff (desired_rule_set lower cr).0 (map (payload_key lower) observed)
        (desired_rule_set-IsDistinct cr) o
