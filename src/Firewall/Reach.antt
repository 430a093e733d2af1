-- ===== src/Firewall/Reach.antt =====
-- `reconcileRules` of internal/controller/network/firewall_external.go reaches the desired rules.
use crossplane_provider_time.Prelude.{
  ℕ, ◌+◌, ◌≤◌, ◌≡◌, refl, sym, subst, ap, ◌∙◌, Text, List, [], ◌++◌, map, arith, length,
}
use mathlib.Core.List.{append-nil}
use crossplane_provider_time.Firewall.{RulePayload, Firewall, FirewallApi, Outcome, returned}
use crossplane_provider_time.Firewall.World.{World, Handler, bind-returned, call}
use crossplane_provider_time.Firewall.Desired.{
  keys, sorted_values, rule_key, payload_key, desired_rule_set,
}
use crossplane_provider_time.Firewall.Reconcile.{
  Progress, stopped, ended, remove_unwanted, unless_stopped, delete_rule, reconcile_rule_list,
  reconcile_rules,
}
use crossplane_provider_time.Firewall.Keys.{IsDistinct, SameKeys}
use crossplane_provider_time.Firewall.Split.{outside, inside, outside_none}
use crossplane_provider_time.Firewall.Converge.{
  ids, IsFaithful, Removed, all_removed, out_of_budget, remove_unwanted-Removed, add,
  add_missing-Added,
}
use crossplane_provider_time.Firewall.Merge.{SameKeys-merge, SameKeys-desired}

within : (m n b : ℕ) → m + n ≤ b → m ≤ b
within m n b h = omega (arith, h)

module _ {S : Type 0} (lower : ℕ → ℕ) (rules : S → List RulePayload) where
  abbrev pub desired_keys : Firewall → List Text
  desired_keys cr = keys (desired_rule_set lower cr).0

  abbrev pub observed_keys : World S → List Text
  observed_keys w = map (payload_key lower) (rules w.upstream)

  -- The number of rules upstream that are not desired, and of desired rules that are missing.
  abbrev pub changes : Firewall → World S → ℕ
  changes cr w =
      length (outside (payload_key lower) (desired_keys cr) (rules w.upstream))
      + length
          (outside (rule_key lower) (observed_keys w) (sorted_values (desired_rule_set lower cr).0))

  -- A run that returned, after which the keys upstream are the desired ones.
  pub record HasReached (cr : Firewall) (r : Outcome ℕ × World S) : Type 0 where
    pub budget : ℕ
    pub returns : r.0 ≡ returned budget
    pub reached : SameKeys (desired_keys cr) (observed_keys r.1)

  merged :
      (cr : Firewall) (w v : World S) (r : Outcome ℕ × World S) (n : ℕ)
      → r.0 ≡ returned n
      → rules v.upstream ≡ inside (payload_key lower) (desired_keys cr) (rules w.upstream)
      → observed_keys r.1
        ≡ observed_keys v
          ++ map (rule_key lower) (
              outside
                (rule_key lower)
                (observed_keys w)
                (sorted_values (desired_rule_set lower cr).0))
      → HasReached cr r
  merged cr w v r n h e f = record {
    budget = n;
    returns = h;
    reached =
        subst (SameKeys (desired_keys cr))
          (sym (
            f
            ∙ ap
                (λ l.
                  map (payload_key lower) l
                  ++ map (rule_key lower) (
                      outside (rule_key lower) (observed_keys w)
                        (sorted_values (desired_rule_set lower cr).0)))
                e))
          (SameKeys-merge (payload_key lower) (rule_key lower) (desired_keys cr) (rules w.upstream)
            (sorted_values (desired_rule_set lower cr).0) (SameKeys-desired lower cr));
  }

still : (n toll missing b : ℕ) → toll + missing ≤ b → n + toll ≡ b → missing ≤ n
still n toll missing b h e = omega (arith, h, e)

still_none : (toll missing b : ℕ) → toll + missing ≤ b → toll ≡ b → missing ≤ 0
still_none toll missing b h e = omega (arith, h, e)

module _ {S : Type 0} (api : FirewallApi S) (lower : ℕ → ℕ) (group : Text)
    (rules : S → List RulePayload) (faithful : IsFaithful api group rules) where
  abbrev remove_all : Firewall → ℕ → World S → Handler S Progress
  remove_all cr b w =
      remove_unwanted (payload_key lower) (delete_rule api lower group)
        (desired_keys lower rules cr) (rules w.upstream) b

  abbrev first_loop : Firewall → ℕ → World S → World S → Outcome Progress × World S
  first_loop cr b w v = remove_all cr b w v

  abbrev second_loop : Firewall → World S → ℕ → Handler S ℕ
  second_loop cr w =
      add api lower group rules faithful (observed_keys lower rules w)
        (sorted_values (desired_rule_set lower cr).0)

  finish :
      (cr : Firewall) (b : ℕ) (w v : World S)
      → changes lower rules cr w ≤ b
      → Removed api lower group rules faithful
          (desired_keys lower rules cr)
          (inside (payload_key lower) (desired_keys lower rules cr) (rules w.upstream))
          (length (outside (payload_key lower) (desired_keys lower rules cr) (rules w.upstream)))
          b
          (remove_unwanted
            (payload_key lower)
            (delete_rule api lower group)
            (desired_keys lower rules cr)
            (rules w.upstream)
            b
            v)
      → HasReached lower rules cr
          (reconcile_rule_list api lower (desired_rule_set lower cr).0 group b (rules w.upstream) v)
  unfolding reconcile_rule_list unless_stopped
  finish cr b w v le (all_removed n p q e) =
      let rest =
        add_missing-Added api lower group rules faithful (observed_keys lower rules w)
          (sorted_values (desired_rule_set lower cr).0) n (first_loop cr b w v).1
          (still _ _ _ _ le q) in
      rw (bind-returned (remove_all cr b w) (unless_stopped (second_loop cr w)) v (ended n) p)
        (merged lower rules cr w (first_loop cr b w v).1 _ rest.budget rest.returns e rest.appended)
  finish cr b w v le (out_of_budget p q e) =
      let none_missing =
        outside_none (rule_key lower) (observed_keys lower rules w)
          (sorted_values (desired_rule_set lower cr).0) (still_none _ _ _ le q) in
      rw (bind-returned (remove_all cr b w) (unless_stopped (second_loop cr w)) v stopped p) (
        merged lower rules cr w (first_loop cr b w v).1 _ 0 refl e (
          sym (append-nil _)
          ∙ ap (λ l. observed_keys lower rules (first_loop cr b w v).1 ++ map (rule_key lower) l)
              (sym none_missing)))

  -- One call brings the rules to the desired ones where its budget is enough: if the upstream
  -- carries out the calls, the ids of its rules are distinct, and the rules that are not desired
  -- and the desired ones that are missing are together within the budget, then the call returns,
  -- and the keys of the rules upstream are the desired keys.
  pub reconcile_rules-HasReached :
      (cr : Firewall) (b : ℕ) (w : World S)
      → IsDistinct (ids (rules w.upstream))
      → changes lower rules cr w ≤ b
      → HasReached lower rules cr (reconcile_rules api lower cr group b w)
  unfolding reconcile_rules
  reconcile_rules-HasReached cr b w d le =
      let v = (call (api.list_firewall_rules group) w).1 in
      let listed = faithful.list_same w.upstream in
      rw
        (bind-returned (call (api.list_firewall_rules group))
          (λ observed. reconcile_rule_list api lower (desired_rule_set lower cr).0 group b observed)
          w (rules w.upstream) (faithful.list w.upstream))
        (finish cr b w v le (
          remove_unwanted-Removed api lower group rules faithful (desired_keys lower rules cr) []
            (rules w.upstream) b v listed d (within _ _ b le)))
