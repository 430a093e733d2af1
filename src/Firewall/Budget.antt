-- ===== src/Firewall/Budget.antt =====
-- How many writes one `Update` of internal/controller/network/firewall_external.go sends.
use crossplane_provider_time.Prelude.{
  ℕ, suc, ◌+◌, ◌≤◌, Text, List, Option, none, some, not, ◌||◌, same, arith, Bool-cases, inl, inr,
}
use crossplane_provider_time.Firewall.{
  Rule, RulePayload, ServiceAttachment, FirewallResource, FirewallGroup, Firewall, FirewallApi,
  FirewallError, Outcome, returned, failed, Reason,
}
use crossplane_provider_time.Firewall.World.{World, ◌>>◌, attempt, done, fail, call, warn}
use crossplane_provider_time.Firewall.Desired.{
  normalize_type, desired_rule_set, text_or_empty, effective_policy,
}
use crossplane_provider_time.Firewall.Reconcile.{
  remove_unwanted, bound_elsewhere, elsewhere, link_unless_bound, attach, create_rule, delete_rule,
  unlink, reconcile_rule_list, reconcile_rules, reconcile_attachment_list, reconcile_attachments,
}
use crossplane_provider_time.Firewall.External.{
  patch_group, update_group, update_checked, reject_duplicate, reject_immutable, update,
}
use crossplane_provider_time.Firewall.Within.{
  left_of, IsWithin, bind-IsWithin, done-IsWithin, fail-IsWithin, warn-IsWithin, read-IsWithin,
  write-IsWithin, IsWrite, weaken, remove_unwanted-IsWithin, add_missing-IsWithin,
  unless_stopped-IsWithin,
}

-- `writes` counts the write requests that the upstream has had: a read adds none, and each of the
-- five writes that `Update` uses adds at most one.
pub record IsMetered {S : Type 0} (api : FirewallApi S) (writes : S → ℕ) : Type 0 where
  pub get_group : (id : Text) (s : S) → writes (api.get_firewall_group id s).1 ≤ writes s
  pub list_rules : (id : Text) (s : S) → writes (api.list_firewall_rules id s).1 ≤ writes s
  pub list_resources : (id : Text) (s : S) → writes (api.list_firewall_resources id s).1 ≤ writes s
  pub service_groups :
      (t id : Text) (s : S) → writes (api.get_service_firewall_groups t id s).1 ≤ writes s
  pub patch :
      (id n d : Text) (s : S) → writes (api.patch_firewall_group id n d s).1 ≤ suc (writes s)
  pub create_rule :
      (id : Text) (r : Rule) (s : S) → writes (api.create_firewall_rule id r s).1 ≤ suc (writes s)
  pub delete_rule :
      (id r : Text) (s : S) → writes (api.delete_firewall_rule id r s).1 ≤ suc (writes s)
  pub link :
      (id r t : Text) (s : S) → writes (api.link_firewall_resource id r t s).1 ≤ suc (writes s)
  pub unlink :
      (id r t : Text) (s : S) → writes (api.unlink_firewall_resource id r t s).1 ≤ suc (writes s)

module _ {S : Type 0} (api : FirewallApi S) (writes : S → ℕ) (metered : IsMetered api writes)
    (lower : ℕ → ℕ) (trim : Text → Text) where
  bound_elsewhere-IsWithin :
      (group service t : Text) (n : ℕ)
      → IsWithin writes (λ _. n) n (bound_elsewhere api lower group service t)
  unfolding bound_elsewhere attempt IsWithin elsewhere
  bound_elsewhere-IsWithin group service t n w =
      let r = api.get_service_firewall_groups t service w.upstream in
      omega (
        arith,
        found r.0 (record w { upstream = r.1 }),
        metered.service_groups t service w.upstream,
      )
    where
      found : (o : Outcome (List Text)) → IsWithin writes (λ _. n) n (elsewhere api lower group o)
      found (returned l) v = omega arith
      found (failed e) v = omega arith

  link_unless_bound-IsWithin :
      (group : Text) (a : ServiceAttachment) (n : ℕ) (o : Option Text)
      → IsWithin writes (λ _. n) (suc n) (link_unless_bound api lower group a o)
  unfolding link_unless_bound
  link_unless_bound-IsWithin group a n none =
      write-IsWithin writes n _ (metered.link group a.service_id (normalize_type a.service_type))
  link_unless_bound-IsWithin group a n (some other) =
      bind-IsWithin writes _ (λ _. n) (suc n) (warn _) _ (warn-IsWithin writes _ (suc n))
        (λ _. fail-IsWithin writes (λ _. n) (suc n) _)

  attach-IsWrite :
      (group : Text) (a : ServiceAttachment) → IsWrite writes (attach api lower group a)
  unfolding attach IsWrite
  attach-IsWrite group a n =
      bind-IsWithin writes _ (λ _. n) (suc n) (bound_elsewhere api lower group a.service_id _) _
        (bound_elsewhere-IsWithin group a.service_id _ (suc n))
        (link_unless_bound-IsWithin group a n)

  reconcile_rules-IsWithin :
      (cr : Firewall) (group : Text) (b : ℕ)
      → IsWithin writes (λ n. n) b (reconcile_rules api lower cr group b)
  unfolding reconcile_rules reconcile_rule_list IsWrite
  reconcile_rules-IsWithin cr group b =
      bind-IsWithin writes _ (λ n. n) b (call _) _
        (read-IsWithin writes b _ (metered.list_rules group))
        (λ observed.
          bind-IsWithin writes left_of (λ n. n) b (remove_unwanted _ _ _ observed b) _
            (remove_unwanted-IsWithin writes _ _ deletes _ observed b)
            (unless_stopped-IsWithin writes _ (add_missing-IsWithin writes _ _ creates _ _)))
    where
      deletes : (r : RulePayload) → IsWrite writes (delete_rule api lower group r)
      deletes r n = write-IsWithin writes n _ (metered.delete_rule group r.id)

      creates : (r : Rule) → IsWrite writes (create_rule api lower group r)
      creates r n = write-IsWithin writes n _ (metered.create_rule group r)

  reconcile_attachments-IsWithin :
      (cr : Firewall) (group : Text) (b : ℕ)
      → IsWithin writes (λ n. n) b (reconcile_attachments api lower cr group b)
  unfolding reconcile_attachments reconcile_attachment_list IsWrite
  reconcile_attachments-IsWithin cr group b =
      bind-IsWithin writes _ (λ n. n) b (call _) _
        (read-IsWithin writes b _ (metered.list_resources group))
        (λ observed.
          bind-IsWithin writes left_of (λ n. n) b (remove_unwanted _ _ _ observed b) _
            (remove_unwanted-IsWithin writes _ _ unlinks _ observed b)
            (unless_stopped-IsWithin writes _
              (add_missing-IsWithin writes _ _ (attach-IsWrite group) _ _)))
    where
      unlinks : (r : FirewallResource) → IsWrite writes (unlink api lower group r)
      unlinks r n = write-IsWithin writes n _ (metered.unlink group r.id _)

  patch_group-IsWithin :
      (cr : Firewall) (g : FirewallGroup)
      → IsWithin writes (λ _. 8) 9 (patch_group api lower trim cr g)
  unfolding patch_group
  patch_group-IsWithin cr g =
      elim (Bool-cases (
        not (same g.name cr.spec.name)
        || not (same g.description (text_or_empty cr.spec.description)))) [
          | inl t ↦ rw t (write-IsWithin writes 8 _ (metered.patch cr.external_name cr.spec.name _))
          | inr t ↦
              rw t (weaken writes (λ _. 8) 8 9 (done tt) (omega arith) (done-IsWithin writes _ tt))
        ]

  update_group-IsWithin :
      (cr : Firewall) (g : FirewallGroup)
      → IsWithin writes (λ _. 0) 9 (update_group api lower trim cr g)
  unfolding update_group
  update_group-IsWithin cr g =
      bind-IsWithin writes _ (λ _. 0) 9 (patch_group api lower trim cr g) _
        (patch_group-IsWithin cr g)
        (λ _.
          bind-IsWithin writes (λ n. n) (λ _. 0) 8 (reconcile_rules api lower cr _ 8) _
            (reconcile_rules-IsWithin cr cr.external_name 8)
            (λ b.
              bind-IsWithin writes (λ n. n) (λ _. 0) b (reconcile_attachments api lower cr _ b) _
                (reconcile_attachments-IsWithin cr cr.external_name b)
                (λ n.
                  weaken writes (λ _. 0) 0 n (done tt) (omega arith) (done-IsWithin writes _ tt))))

  refuse-IsWithin :
      (r : Reason) (e : FirewallError) (n : ℕ)
      → IsWithin writes (λ _. 0) n (warn r >> fail {A = Unit {0}} e)
  refuse-IsWithin r e n =
      bind-IsWithin writes _ (λ _. 0) n (warn r) _ (warn-IsWithin writes r n)
        (λ _. fail-IsWithin writes (λ _. 0) n e)

  update_checked-IsWithin :
      (cr : Firewall) (g : FirewallGroup)
      → IsWithin writes (λ _. 0) 9 (update_checked api lower trim cr g)
  unfolding update_checked reject_immutable
  update_checked-IsWithin cr g =
      elim (Bool-cases (same (trim (effective_policy cr)) (trim g.policy))) [
        | inl t ↦ rw t (update_group-IsWithin cr g)
        | inr t ↦ rw t (refuse-IsWithin _ _ 9)
      ]

  -- One `Update` sends at most nine write requests, whatever the specification, the state of the
  -- upstream and the failures of its calls, if a read is no write and each call is at most one.
  pub update_within_budget :
      (w : World S) → writes (update api lower trim w).1.upstream ≤ writes w.upstream + 9
  unfolding update reject_duplicate IsWithin
  update_within_budget w = elim (Bool-cases (desired_rule_set lower w.cr).1) [
    | inl t ↦ rw t (omega (arith, refuse-IsWithin _ _ 9 w))
    | inr t ↦ rw t (
        omega (
          arith,
          bind-IsWithin writes (λ _. 9) (λ _. 0) 9
              (call (api.get_firewall_group w.cr.external_name))
              (update_checked api lower trim w.cr)
              (read-IsWithin writes 9 _ (metered.get_group w.cr.external_name))
              (update_checked-IsWithin w.cr) w,
        ))
  ]
