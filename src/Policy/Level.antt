-- ===== src/Policy/Level.antt =====
-- The level that is read back from a policy of internal/clients/rgwiam/policy.go.
use mathlib.Core.List.{Permᴰ, append_cancel_right}
use mathlib.Core.List.Permᴰ.{nil, cons, swap, trans}
use crossplane_provider_time.Prelude.{
  ◌≡◌, refl, ap, sym, subst, ◌∙◌, ◌≢◌, inl, inr, ◌↔◌, Text, lit, List, [], ◌∷◌, ◌++◌, Option, some,
  Bool, true, false, ◌&&◌, ◌||◌, if◌then◌else◌, same, same_iff, contains, Bool-cases, All, arith,
}
use crossplane_provider_time.Policy.{
  level_read, level_read_write, level_admin, Grant, PolicyDoc, arn, arn_objects, writes,
  object_actions, bucket_actions, object_statement, bucket_statement, base_statement, statements,
  policy_doc, render_policy, Found, nothing_found, read_statement, read_statements, level_of,
  derive_level_of, derive_level_for_bucket,
}

-- Some grant of the bucket has a level that passes.
unfoldable pub granted : (Text → Bool) → Text → List Grant → Bool
granted p bucket [] = false
granted p bucket (g ∷ gs) = (same g.bucket bucket && p g.level) || granted p bucket gs

abbrev any_level : Text → Bool
any_level level = true

abbrev is_admin : Text → Bool
is_admin level = same level level_admin

granted_mono :
    (p q : Text → Bool) (bucket : Text) (gs : List Grant)
    → ((level : Text) → p level ≡ true → q level ≡ true)
    → granted p bucket gs ≡ true
    → granted q bucket gs ≡ true
unfolding granted
granted_mono p q bucket [] h t = t
granted_mono p q bucket (g ∷ gs) h t =
    let here = h g.level in let rest = granted_mono p q bucket gs h in ground arith

admin-writes : (level : Text) → is_admin level ≡ true → writes level ≡ true
unfolding writes
admin-writes level t = ground arith

-- The highest level that the grants of a bucket give, where any other level counts as "read".
abbrev pub highest : Text → List Grant → Text × Bool
highest bucket grants =
    if granted is_admin bucket grants
    then (level_admin, true)
    else if granted writes bucket grants
    then (level_read_write, true)
    else if granted any_level bucket grants
    then (level_read, true)
    else ([], false)

-- No name is the other one followed by the suffix of the objects.
abbrev pub IsApart : Text → Grant → Type 0
IsApart bucket g = (g.bucket ≢ bucket ++ lit "/*") × (bucket ≢ g.bucket ++ lit "/*")

same_of_iff : (b c : Bool) → (b ≡ true) ↔ (c ≡ true) → b ≡ c
same_of_iff b c h = ground arith

not-same : (s t : Text) → s ≢ t → same s t ≡ false
not-same s t n = elim (Bool-cases (same s t)) [
  | inl h ↦ absurd (n ((same_iff s t).0 h))
  | inr h ↦ h
]

same-arn : (a b : Text) → same (arn a) (arn b) ≡ same a b
unfolding arn same
same-arn a b = refl

same-arn_objects : (a b : Text) → same (arn_objects a) (arn_objects b) ≡ same a b
unfolding arn_objects same
same-arn_objects a b = same_of_iff _ _ (
  (λ h. (same_iff a b).1 (append_cancel_right a b (lit "/*") ((same_iff _ _).0 h))),
  (λ h. (same_iff _ _).1 (ap (λ x. x ++ lit "/*") ((same_iff a b).0 h))),
)

object-arn : (a b : Text) → b ≢ a ++ lit "/*" → same (arn_objects a) (arn b) ≡ false
unfolding arn_objects arn same
object-arn a b n = not-same (a ++ lit "/*") b (λ e. n (sym e))

arn-object : (a b : Text) → a ≢ b ++ lit "/*" → same (arn a) (arn_objects b) ≡ false
unfolding arn_objects arn same
arn-object a b n = not-same a (b ++ lit "/*") n

full_objects : (level : Text) → contains (object_actions level) (lit "s3:*") ≡ writes level
unfolding object_actions contains same
full_objects level = elim (Bool-cases (writes level)) [ inl t ↦ rw t refl | inr f ↦ rw f refl ]

full_bucket : (level : Text) → contains (bucket_actions level) (lit "s3:*") ≡ is_admin level
unfolding bucket_actions contains same
full_bucket level = elim (Bool-cases (same level level_admin)) [
  | inl t ↦ rw t refl
  | inr f ↦ rw f refl
]

module _ (bucket : Text) where
  -- What a grant adds to what was found.
  abbrev add_grant : Grant → Found → Found
  add_grant g f =
      if same g.bucket bucket
      then record {
        present = true;
        obj_full = f.obj_full || writes g.level;
        bkt_full = f.bkt_full || is_admin g.level;
      }
      else f

  read_grant :
      (g : Grant) (f : Found)
      → IsApart bucket g
      → read_statement bucket (bucket_statement g) (read_statement bucket (object_statement g) f)
        ≡ add_grant g f
  unfolding read_statement object_statement bucket_statement contains
  read_grant g f a =
      rw
        (
          full_objects g.level,
          full_bucket g.level,
          same-arn g.bucket bucket,
          same-arn_objects g.bucket bucket,
          object-arn g.bucket bucket a.1,
          arn-object g.bucket bucket a.0,
        )
        (elim (Bool-cases (same g.bucket bucket)) [ inl t ↦ rw t refl | inr t ↦ rw t refl ])

  -- What the grants give, besides what was found.
  record IsFound (f : Found) (gs : List Grant) (r : Found) : Type 0 where
    is_present : r.present ≡ (f.present || granted any_level bucket gs)
    is_obj_full : r.obj_full ≡ (f.obj_full || granted writes bucket gs)
    is_bkt_full : r.bkt_full ≡ (f.bkt_full || granted is_admin bucket gs)

  add_grant-IsFound :
      (g : Grant) (gs : List Grant) (f r : Found)
      → IsFound (add_grant g f) gs r
      → IsFound f (g ∷ gs) r
  unfolding granted
  add_grant-IsFound g gs f r h = elim (Bool-cases (same g.bucket bucket)) [
    | inl t ↦
        let k : IsFound (add_grant g f) gs r = h in
        record { is_present = ground arith; is_obj_full = ground arith; is_bkt_full = ground arith }
    | inr t ↦ record {
      is_present = ground arith;
      is_obj_full = ground arith;
      is_bkt_full = ground arith;
    }
  ]

  read_statements-IsFound :
      (gs : List Grant) (f : Found)
      → All (IsApart bucket) gs
      → IsFound f gs (read_statements bucket (statements gs) f)
  unfolding read_statements statements granted
  read_statements-IsFound [] f a = record {
    is_present = ground arith;
    is_obj_full = ground arith;
    is_bkt_full = ground arith;
  }
  read_statements-IsFound (g ∷ gs) f a =
      subst (λ x. IsFound f (g ∷ gs) (read_statements bucket (statements gs) x))
        (sym (read_grant g f a.0))
        (add_grant-IsFound g gs f _ (read_statements-IsFound gs (add_grant g f) a.1))

  read_base : read_statement bucket base_statement nothing_found ≡ nothing_found
  unfolding read_statement contains arn arn_objects same
  read_base = refl

  level_of-highest :
      (gs : List Grant) (r : Found) → IsFound nothing_found gs r → (level_of r) ≡ highest bucket gs
  unfolding level_of
  level_of-highest gs r h =
      let writes_any = granted_mono writes any_level bucket gs (λ x _. refl) in
      let admin_writes = granted_mono is_admin writes bucket gs admin-writes in
      rw (h.is_present, h.is_obj_full, h.is_bkt_full)
        (elim (Bool-cases (granted is_admin bucket gs)) [
          | inl a ↦ let w = admin_writes a in rw (a, w, writes_any w) refl
          | inr a ↦ elim (Bool-cases (granted writes bucket gs)) [
            | inl w ↦ rw (a, w, writes_any w) refl
            | inr w ↦ elim (Bool-cases (granted any_level bucket gs)) [
              | inl y ↦ rw (a, w, y) refl
              | inr y ↦ rw (a, w, y) refl
            ]
          ]
        ])

granted-Permᴰ :
    {l m : List Grant} (p : Text → Bool) (bucket : Text)
    → Permᴰ l m
    → granted p bucket l ≡ granted p bucket m
unfolding granted
granted-Permᴰ p bucket nil = refl
granted-Permᴰ p bucket (cons {b = b} {l₁ = l} e d) =
    ap (λ g. (same g.bucket bucket && p g.level) || granted p bucket l) e
    ∙ ap (λ r. (same b.bucket bucket && p b.level) || r) (granted-Permᴰ p bucket d)
granted-Permᴰ p bucket (swap {a = a} {b = b} {a' = a'} {l = l} e f) =
    let c : granted p bucket (a ∷ b ∷ l) ≡ granted p bucket (b ∷ a ∷ l) = ground arith in
    c ∙ ap (λ g. granted p bucket (g ∷ a ∷ l)) f ∙ ap (λ g. granted p bucket (a' ∷ g ∷ l)) e
granted-Permᴰ p bucket (trans d f) = granted-Permᴰ p bucket d ∙ granted-Permᴰ p bucket f

highest-Permᴰ : {l m : List Grant} (bucket : Text) → Permᴰ l m → highest bucket l ≡ highest bucket m
highest-Permᴰ bucket d =
    (rw (
      granted-Permᴰ is_admin bucket d,
      granted-Permᴰ writes bucket d,
      granted-Permᴰ any_level bucket d,
    ))

All-Permᴰ : {l m : List Grant} (P : Grant → Type 0) → Permᴰ l m → All P m → All P l
All-Permᴰ P nil h = h
All-Permᴰ P (cons e d) h = (subst P (sym e) h.0, All-Permᴰ P d h.1)
All-Permᴰ P (swap e f) h = (subst P (sym e) h.1.0, (subst P (sym f) h.0, h.1.1))
All-Permᴰ P (trans d f) h = All-Permᴰ P d (All-Permᴰ P f h)

-- The level that was granted is read back: where the document that `RenderPolicy` gives is parsed
-- into the one that it was printed from, the grants were only reordered, and no bucket's name is
-- that of the one asked for, or the other way round, with the suffix for objects,
-- `DeriveLevelForBucket` gives the highest level that the grants have for the bucket, and none
-- where no grant names it.
pub derive_level_for_bucket-render_policy :
    (marshal : PolicyDoc → Option Text) (unmarshal : Text → Option PolicyDoc)
    (sort_grants : List Grant → List Grant) (grants : List Grant) (bucket doc : Text)
    → render_policy marshal sort_grants grants ≡ some doc
    → unmarshal doc ≡ some (policy_doc sort_grants grants)
    → ((gs : List Grant) → Permᴰ (sort_grants gs) gs)
    → All (IsApart bucket) grants
    → derive_level_for_bucket unmarshal doc bucket ≡ highest bucket grants
unfolding derive_level_for_bucket render_policy derive_level_of policy_doc read_statements
derive_level_for_bucket-render_policy marshal unmarshal sort_grants grants bucket doc r u p a =
    let s = p grants in
    let found =
      read_statements-IsFound bucket (sort_grants grants) nothing_found
        (All-Permᴰ (IsApart bucket) s a) in
    ap (λ o. derive_level_of o bucket) u
    ∙ ap (λ f. level_of (read_statements bucket (statements (sort_grants grants)) f))
        (read_base bucket)
    ∙ level_of-highest bucket (sort_grants grants) _ found
    ∙ highest-Permᴰ bucket s
