-- ===== src/Firewall/Converge.antt =====
-- What `reconcileRules` of internal/controller/network/firewall_external.go makes of the rules of a
-- group, where the upstream carries out each call.
use mathlib.Core.List.{append-nil}
use crossplane_provider_time.Prelude.{
  ℕ, zero, suc, ◌+◌, ◌≤◌, ◌≡◌, refl, sym, subst, ap, ◌∙◌, inl, inr, Text, List, [], ◌∷◌, ◌++◌, map,
  arith, Bool-cases, length, In, contains,
}
use crossplane_provider_time.Firewall.{Rule, RulePayload, FirewallApi, Outcome, returned}
use crossplane_provider_time.Firewall.World.{World, Handler, bind-returned}
use crossplane_provider_time.Firewall.Desired.{rule_key, payload_key}
use crossplane_provider_time.Firewall.Reconcile.{
  Progress, stopped, ended, remove_unwanted, add_missing, create_rule, delete_rule,
}
use crossplane_provider_time.Firewall.Keys.{IsDistinct}
use crossplane_provider_time.Firewall.Split.{
  outside, inside, snoc_append, map-append, IsDistinct-mid, inside_all, outside_none,
}

abbrev pub ids : List RulePayload → List Text
ids l = map (λ r. r.id) l

-- An upstream that carries out the calls on the rules of one group: the rules are listed, a rule
-- is deleted by its id, which names the first rule that has it, and a new one is put at the end.
pub record IsFaithful {S : Type 0} (api : FirewallApi S) (group : Text)
    (rules : S → List RulePayload) : Type 0 where
  pub list : (s : S) → (api.list_firewall_rules group s).0 ≡ returned (rules s)
  pub list_same : (s : S) → rules (api.list_firewall_rules group s).1 ≡ rules s
  pub delete :
      (before after : List RulePayload) (r : RulePayload) (s : S)
      → ¬ In r.id (ids before)
      → rules s ≡ before ++ r ∷ after
      → (api.delete_firewall_rule group r.id s).0 ≡ returned tt
  pub delete_one :
      (before after : List RulePayload) (r : RulePayload) (s : S)
      → ¬ In r.id (ids before)
      → rules s ≡ before ++ r ∷ after
      → rules (api.delete_firewall_rule group r.id s).1 ≡ before ++ after
  pub create : (r : Rule) (s : S) → (api.create_firewall_rule group r s).0 ≡ returned tt
  pub create_one :
      (r : Rule) (s : S)
      → (id : Text) × (rules (api.create_firewall_rule group r s).1
          ≡ rules s ++ record { id = id; rule = r } ∷ [])

ids-snoc :
    (before : List RulePayload) (x : RulePayload) (xs : List RulePayload)
    → ids (before ++ x ∷ []) ++ ids xs ≡ ids before ++ ids (x ∷ xs)
ids-snoc before x xs =
    ap (λ l. l ++ ids xs) (map-append (λ r. r.id) before (x ∷ []))
    ∙ snoc_append (ids before) x.id (ids xs)

pub fewer : (n b : ℕ) → suc n ≤ suc b → n ≤ b
fewer n b h = omega (arith, h)

module _ {S : Type 0} (api : FirewallApi S) (lower : ℕ → ℕ) (group : Text)
    (rules : S → List RulePayload) (faithful : IsFaithful api group rules) where
  abbrev pub unwanted : List Text → List RulePayload → List RulePayload
  unwanted wanted xs = outside (payload_key lower) wanted xs

  -- How the first loop ends, and what it leaves upstream.
  pub data Removed (wanted : List Text) (left : List RulePayload) (toll b : ℕ)
      (r : Outcome Progress × World S) : Type 0 where
    all_removed :
        (n : ℕ)
        → r.0 ≡ returned (ended n)
        → n + toll ≡ b
        → rules r.1.upstream ≡ left
        → Removed wanted left toll b r
    out_of_budget :
        r.0 ≡ returned stopped → toll ≡ b → rules r.1.upstream ≡ left → Removed wanted left toll b r

  one_more :
      (wanted : List Text) (left : List RulePayload) (toll b : ℕ) (r : Outcome Progress × World S)
      → Removed wanted left toll b r
      → Removed wanted left (suc toll) (suc b) r
  one_more wanted left toll b r (all_removed n p q s) = all_removed n p (omega (arith, q)) s
  one_more wanted left toll b r (out_of_budget p q s) = out_of_budget p (ap suc q) s

  pub remove_unwanted-Removed :
      (wanted : List Text) (before xs : List RulePayload) (b : ℕ) (w : World S)
      → rules w.upstream ≡ before ++ xs
      → IsDistinct (ids before ++ ids xs)
      → length (unwanted wanted xs) ≤ b
      → Removed wanted
          (before ++ inside (payload_key lower) wanted xs)
          (length (unwanted wanted xs))
          b
          (remove_unwanted (payload_key lower) (delete_rule api lower group) wanted xs b w)
  unfolding remove_unwanted
  remove_unwanted-Removed wanted before [] b w e d le = all_removed b refl (omega arith) e
  remove_unwanted-Removed wanted before (x ∷ xs) zero w e d le =
      out_of_budget refl (omega (arith, le))
        (e ∙ ap (λ l. before ++ l) (sym (inside_all (payload_key lower) wanted (x ∷ xs) le)))
  remove_unwanted-Removed wanted before (x ∷ xs) (suc b) w e d le =
      elim (Bool-cases (contains wanted (payload_key lower x))) [
        | inl t ↦ rw t (
            subst
              (λ l. Removed wanted l (length (unwanted wanted xs)) (suc b) (
                remove_unwanted (payload_key lower) (delete_rule api lower group) wanted xs (suc b)
                  w))
              (snoc_append before x (inside (payload_key lower) wanted xs))
              (remove_unwanted-Removed wanted (before ++ x ∷ []) xs (suc b) w
                (e ∙ sym (snoc_append before x xs))
                (subst IsDistinct (sym (ids-snoc before x xs)) d) (rw t at le)))
        | inr t ↦
            let (new, distinct) = IsDistinct-mid (ids before) x.id (ids xs) d in
            rw
              (
                t,
                bind-returned (delete_rule api lower group x)
                    (λ _.
                      remove_unwanted (payload_key lower) (delete_rule api lower group) wanted xs b)
                    w tt (faithful.delete before xs x w.upstream new e),
              )
              (one_more wanted _ _ b _ (
                remove_unwanted-Removed wanted before xs b (delete_rule api lower group x w).1
                  (faithful.delete_one before xs x w.upstream new e) distinct
                  (fewer _ b (rw t at le))))
      ]

  -- What the second loop leaves upstream.
  pub record Added (have : List Text) (xs : List Rule) (w : World S) (r : Outcome ℕ × World S)
      : Type 0 where
    pub budget : ℕ
    pub returns : r.0 ≡ returned budget
    pub appended :
        map (payload_key lower) (rules r.1.upstream)
        ≡ map (payload_key lower) (rules w.upstream)
          ++ map (rule_key lower) (outside (rule_key lower) have xs)

  abbrev pub add : List Text → List Rule → ℕ → Handler S ℕ
  add have xs b = add_missing (rule_key lower) (create_rule api lower group) have xs b

  -- One rule is created, and then the others.
  created :
      (x : Rule) (s : S) (t u : S) (l : List Text)
      → (id : Text) × (rules t ≡ rules s ++ record { id = id; rule = x } ∷ [])
      → map (payload_key lower) (rules u) ≡ map (payload_key lower) (rules t) ++ l
      → map (payload_key lower) (rules u)
        ≡ map (payload_key lower) (rules s) ++ rule_key lower x ∷ l
  unfolding payload_key
  created x s t u l (id, e) h =
      h
      ∙ ap (λ k. map (payload_key lower) k ++ l) e
      ∙ ap (λ k. k ++ l)
          (map-append (payload_key lower) (rules s) (record { id = id; rule = x } ∷ []))
      ∙ snoc_append (map (payload_key lower) (rules s)) (rule_key lower x) l

  pub add_missing-Added :
      (have : List Text) (xs : List Rule) (b : ℕ) (w : World S)
      → length (outside (rule_key lower) have xs) ≤ b
      → Added have xs w (add have xs b w)
  unfolding add_missing
  add_missing-Added have [] b w le = record {
    budget = b;
    returns = refl;
    appended = sym (append-nil (map (payload_key lower) (rules w.upstream)));
  }
  add_missing-Added have (x ∷ xs) zero w le = record {
    budget = 0;
    returns = refl;
    appended =
        sym (append-nil (map (payload_key lower) (rules w.upstream)))
        ∙ ap (λ l. map (payload_key lower) (rules w.upstream) ++ map (rule_key lower) l)
            (sym (outside_none (rule_key lower) have (x ∷ xs) le));
  }
  add_missing-Added have (x ∷ xs) (suc b) w le =
      elim (Bool-cases (contains have (rule_key lower x))) [
        | inl t ↦
            let rest = add_missing-Added have xs (suc b) w (rw t at le) in
            record {
              budget = rest.budget;
              returns = rw t rest.returns;
              appended = rw t rest.appended;
            }
        | inr t ↦
            let v = (create_rule api lower group x w).1 in
            let rest = add_missing-Added have xs b v (fewer _ b (rw t at le)) in
            let step =
              bind-returned (create_rule api lower group x) (λ _. add have xs b) w tt
                (faithful.create x w.upstream) in
            record {
              budget = rest.budget;
              returns = rw (t, step) rest.returns;
              appended =
                  rw (t, step)
                    (created x w.upstream v.upstream (add have xs b v).1.upstream _
                      (faithful.create_one x w.upstream) rest.appended);
            }
      ]
