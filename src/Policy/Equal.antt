-- ===== src/Policy/Equal.antt =====
-- `PoliciesEqual` of internal/clients/rgwiam/policy.go does not look at the order.
use mathlib.Core.List.{Permᴰ}
use mathlib.Core.List.Permᴰ.{nil, cons, swap, trans}
use mathlib.Core.List.Permᴰ as Permᴰ
use crossplane_provider_time.Prelude.{
  ℕ, ◌≡◌, refl, ap, Text, List, [], ◌∷◌, map, Option, some, true, same_refl,
}
use crossplane_provider_time.Prelude.Sort.{sort_strings-Permᴰ}
use crossplane_provider_time.Policy.{
  Grant, PolicyDoc, object_statement, bucket_statement, base_statement, statements, policy_doc,
  render_policy, canonical_statement, canonical, canonical_of, canonical_statements, same_texts,
  same_canonical, policies_equal,
}

map-Permᴰ : {A B : Type 0} {l m : List A} (f : A → B) → Permᴰ l m → Permᴰ (map f l) (map f m)
map-Permᴰ f nil = nil
map-Permᴰ f (cons e d) = cons (ap f e) (map-Permᴰ f d)
map-Permᴰ f (swap e g) = swap (ap f e) (ap f g)
map-Permᴰ f (trans d g) = trans (map-Permᴰ f d) (map-Permᴰ f g)

same_texts_refl : (l : List Text) → same_texts l l ≡ true
unfolding same_texts
same_texts_refl [] = refl
same_texts_refl (s ∷ l) = rw (same_refl s, same_texts_refl l) refl

four-Permᴰ : {A : Type 0} (x y z w : A) (l : List A) → Permᴰ (x ∷ y ∷ z ∷ w ∷ l) (z ∷ w ∷ x ∷ y ∷ l)
four-Permᴰ x y z w l = trans (cons refl (swap refl refl)) (
    trans (swap refl refl)
      (trans (cons refl (cons refl (swap refl refl))) (cons refl (swap refl refl))))

-- The two statements of a grant move together.
statements-Permᴰ : {l m : List Grant} → Permᴰ l m → Permᴰ (statements l) (statements m)
unfolding statements
statements-Permᴰ nil = nil
statements-Permᴰ (cons e d) =
    cons (ap object_statement e) (cons (ap bucket_statement e) (statements-Permᴰ d))
statements-Permᴰ (swap {a = a} {b = b} {l = l} e f) = trans (four-Permᴰ _ _ _ _ (statements l)) (
    cons (ap object_statement f) (
      cons (ap bucket_statement f)
        (cons (ap object_statement e) (cons (ap bucket_statement e) (Permᴰ.refl (statements l))))))
statements-Permᴰ (trans d f) = trans (statements-Permᴰ d) (statements-Permᴰ f)

canonical-Permᴰ :
    (lower : ℕ → ℕ) (sort_grants : List Grant → List Grant) (l m : List Grant)
    → Permᴰ (sort_grants l) (sort_grants m)
    → canonical lower (policy_doc sort_grants l) ≡ canonical lower (policy_doc sort_grants m)
unfolding canonical policy_doc
canonical-Permᴰ lower sort_grants l m d =
    sort_strings-Permᴰ
      (map-Permᴰ (canonical_statement lower) (cons {a = base_statement} refl (statements-Permᴰ d)))

-- Equality does not look at the order of the grants: where the documents that `RenderPolicy` gives
-- for two lists of grants are parsed into those that they were printed from, the grants were only
-- reordered for them, and the lists are rearrangements of each other, `PoliciesEqual` holds.
pub policies_equal-render_policy :
    (lower : ℕ → ℕ) (marshal : PolicyDoc → Option Text) (unmarshal : Text → Option PolicyDoc)
    (sort_grants : List Grant → List Grant) (l m : List Grant) (a b : Text)
    → render_policy marshal sort_grants l ≡ some a
    → render_policy marshal sort_grants m ≡ some b
    → unmarshal a ≡ some (policy_doc sort_grants l)
    → unmarshal b ≡ some (policy_doc sort_grants m)
    → ((grants : List Grant) → Permᴰ (sort_grants grants) grants)
    → Permᴰ l m
    → policies_equal lower unmarshal a b ≡ true
unfolding policies_equal canonical_statements canonical_of same_canonical render_policy
policies_equal-render_policy lower marshal unmarshal sort_grants l m a b r s u v p d =
    let sorted = trans (p l) (trans d (Permᴰ.symm (p m))) in
    rw (u, v, canonical-Permᴰ lower sort_grants l m sorted)
      (same_texts_refl (canonical lower (policy_doc sort_grants m)))
