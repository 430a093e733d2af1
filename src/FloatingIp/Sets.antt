-- ===== src/FloatingIp/Sets.antt =====
-- The sets of texts of internal/controller/compute/floatingip_bind.go.
use crossplane_provider_time.Prelude.{
  ◌≡◌, refl, subst, ◌↔◌, inl, inr, Text, List, [], ◌∷◌, true, false, In, Bool-cases, contains,
  contains_iff, length, same, same_iff, arith,
}
use crossplane_provider_time.Prelude.Distinct.{
  IsDistinct, SameKeys, Subset, length-Subset, Subset-flip,
}
use crossplane_provider_time.FloatingIp.{dedupe_from, dedupe_strings, all_in, string_sets_equal}

-- What was not seen is kept.
dedupe_from-In :
    (seen ss : List Text) (k : Text) → In k (dedupe_from seen ss) ↔ (In k ss × ¬ In k seen)
unfolding dedupe_from
dedupe_from-In seen [] k = ((λ m. absurd m), (λ m. absurd m.0))
dedupe_from-In seen (s ∷ ss) k = elim (Bool-cases (contains seen s)) [
  | inl t ↦
      let there = (contains_iff seen s).0 t in
      let rest = dedupe_from-In seen ss k in
      rw t ((λ m. let q = rest.0 m in (inr q.0, q.1)), seen_before _ ss s there rest)
  | inr f ↦
      let away : ¬ In s seen = λ m. (let c = (contains_iff seen s).1 m in cc) in
      let rest = dedupe_from-In (s ∷ seen) ss k in rw f (to _ ss s away rest, from _ ss s rest)
]
  where
    seen_before :
        (d ss : List Text) (s : Text)
        → In s seen
        → In k d ↔ (In k ss × ¬ In k seen)
        → In k (s ∷ ss) × ¬ In k seen
        → In k d
    seen_before d ss s there rest (inl e, n) = absurd (n (subst (λ x. In x seen) e there))
    seen_before d ss s there rest (inr m, n) = rest.1 (m, n)

    to :
        (d ss : List Text) (s : Text)
        → ¬ In s seen
        → In k d ↔ (In k ss × ¬ In k (s ∷ seen))
        → In k (s ∷ d)
        → In k (s ∷ ss) × ¬ In k seen
    to d ss s away rest (inl e) = (inl e, subst (λ x. ¬ In x seen) e away)
    to d ss s away rest (inr m) = let q = rest.0 m in (inr q.0, λ i. q.1 (inr i))

    unseen : (s : Text) → ¬ In k seen → same s k ≡ false → ¬ In k (s ∷ seen)
    unseen s n f (inl e) = let c = (same_iff s k).1 e in cc
    unseen s n f (inr m) = n m

    from :
        (d ss : List Text) (s : Text)
        → In k d ↔ (In k ss × ¬ In k (s ∷ seen))
        → In k (s ∷ ss) × ¬ In k seen
        → In k (s ∷ d)
    from d ss s rest (inl e, n) = inl e
    from d ss s rest (inr m, n) = elim (Bool-cases (same s k)) [
      | inl t ↦ inl ((same_iff s k).0 t)
      | inr f ↦ inr (rest.1 (m, unseen s n f))
    ]

dedupe_from-IsDistinct : (seen ss : List Text) → IsDistinct (dedupe_from seen ss)
unfolding dedupe_from
dedupe_from-IsDistinct seen [] = tt
dedupe_from-IsDistinct seen (s ∷ ss) = elim (Bool-cases (contains seen s)) [
  | inl t ↦ rw t (dedupe_from-IsDistinct seen ss)
  | inr f ↦ rw f (
    (λ m. ((dedupe_from-In (s ∷ seen) ss s).0 m).1 (inl refl)),
    dedupe_from-IsDistinct (s ∷ seen) ss,
  )
]

pub dedupe_strings-In : (ss : List Text) (k : Text) → In k (dedupe_strings ss) ↔ In k ss
unfolding dedupe_strings
dedupe_strings-In ss k =
    let d = dedupe_from-In [] ss k in ((λ m. (d.0 m).0), (λ m. d.1 (m, λ i. i)))

pub dedupe_strings-IsDistinct : (ss : List Text) → IsDistinct (dedupe_strings ss)
unfolding dedupe_strings
dedupe_strings-IsDistinct ss = dedupe_from-IsDistinct [] ss

all_in_iff : (a b : List Text) → (all_in a b ≡ true) ↔ Subset a b
unfolding all_in
all_in_iff a b = (to a, from a)
  where
    to : (a : List Text) → all_in a b ≡ true → Subset a b
    to [] h k m = absurd m
    to (s ∷ a) h k (inl e) = subst (λ x. In x b) e ((contains_iff b s).0 (ground arith))
    to (s ∷ a) h k (inr m) = to a (ground arith) k m

    from : (a : List Text) → Subset a b → all_in a b ≡ true
    from [] h = refl
    from (s ∷ a) h = rw ((contains_iff b s).1 (h s (inl refl)), from a (λ k m. h k (inr m))) refl

-- The same elements, whatever the order and the repetitions.
pub string_sets_equal_iff : (a b : List Text) → (string_sets_equal a b ≡ true) ↔ SameKeys a b
unfolding string_sets_equal
string_sets_equal_iff a b =
    let da = dedupe_strings-In a in
    let db = dedupe_strings-In b in
    let na = dedupe_strings-IsDistinct a in
    let nb = dedupe_strings-IsDistinct b in
    let all = all_in_iff (dedupe_strings a) b in
    (
      (λ h k.
          let len : length (dedupe_strings a) ≡ length (dedupe_strings b) = ground arith in
          let sub = all.0 (ground arith) in
          let inside : Subset (dedupe_strings a) (dedupe_strings b) = λ j m. (db j).1 (sub j m) in
          let back =
            Subset-flip (dedupe_strings a) (dedupe_strings b) na inside (omega (arith, len)) in
          ((λ m. sub k ((da k).1 m)), (λ m. (da k).0 (back k ((db k).1 m))))),
      (λ h.
          let le =
            length-Subset (dedupe_strings a) (dedupe_strings b) na
              (λ k m. (db k).1 ((h k).0 ((da k).0 m))) in
          let ge =
            length-Subset (dedupe_strings b) (dedupe_strings a) nb
              (λ k m. (da k).1 ((h k).1 ((db k).0 m))) in
          let len : length (dedupe_strings a) ≡ length (dedupe_strings b) = omega (arith, le, ge) in
          let sub = all.1 (λ k m. (h k).0 ((da k).0 m)) in ground arith),
    )
