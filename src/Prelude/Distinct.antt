-- ===== src/Prelude/Distinct.antt =====
-- Lists of texts as sets: distinct lists and their lengths.
use crossplane_provider_time.Prelude.{
  suc, ◌≤◌, ◌<◌, ◌≡◌, refl, sym, subst, ◌↔◌, inl, inr, Text, List, [], ◌∷◌, Bool, not, arith,
  Bool-cases, length, keep, In, keep-In, same, same_iff, contains, contains_iff,
}

abbrev pub IsDistinct : List Text → Type 0
IsDistinct [] = Unit
IsDistinct (k ∷ ks) = ¬ In k ks × IsDistinct ks

abbrev pub SameKeys : List Text → List Text → Type 0
SameKeys ks ls = (k : Text) → In k ks ↔ In k ls

abbrev pub Subset : List Text → List Text → Type 0
Subset ks ls = (k : Text) → In k ks → In k ls

abbrev without : Text → List Text → List Text
without x ks = keep (λ k. not (same x k)) ks

length-keep : (p : Text → Bool) (ks : List Text) → length (keep p ks) ≤ length ks
length-keep p [] = omega arith
length-keep p (k ∷ ks) = elim (Bool-cases (p k)) [
  | inl t ↦ rw t (omega (arith, length-keep p ks))
  | inr t ↦ rw t (omega (arith, length-keep p ks))
]

length-without : (x : Text) (ks : List Text) → In x ks → length (without x ks) < length ks
length-without x [] m = absurd m
length-without x (k ∷ ks) (inl e) =
    rw ((same_iff x k).1 (sym e)) (omega (arith, length-keep (λ l. not (same x l)) ks))
length-without x (k ∷ ks) (inr m) = elim (Bool-cases (same x k)) [
  | inl t ↦ rw t (omega (arith, length-without x ks m))
  | inr t ↦ rw t (omega (arith, length-without x ks m))
]

In-without : (x k : Text) (ks : List Text) → In k ks → ¬ (x ≡ k) → In k (without x ks)
In-without x k ks m h =
    keep-In _ k ks m
      (elim (Bool-cases (same x k)) [ inl t ↦ absurd (h ((same_iff x k).0 t)) | inr t ↦ rw t ])

-- Distinct keys that are all in a list are no more than the list has.
pub length-Subset : (ks ls : List Text) → IsDistinct ks → Subset ks ls → length ks ≤ length ls
length-Subset [] ls d h = omega arith
length-Subset (x ∷ ks) ls d h =
    let rest =
      length-Subset ks (without x ls) d.1
        (λ k m. In-without x k ls (h k (inr m)) (λ e. d.0 (subst (λ y. In y ks) (sym e) m))) in
    omega (arith, rest, length-without x ls (h x (inl refl)))

pub Subset-flip :
    (ks ls : List Text) → IsDistinct ks → Subset ks ls → length ls ≤ length ks → Subset ls ks
Subset-flip ks ls d h le k m = elim (Bool-cases (contains ks k)) [
  | inl t ↦ (contains_iff ks k).0 t
  | inr f ↦
      let out : ¬ In k ks = λ n. (let c = (contains_iff ks k).1 n in cc) in
      absurd (exceeds (length-Subset (k ∷ ks) ls (out, d) cover) le)
]
  where
    exceeds : suc (length ks) ≤ length ls → length ls ≤ length ks → ⊥
    exceeds over le' = omega arith

    cover : Subset (k ∷ ks) ls
    cover j (inl e) = subst (λ y. In y ls) e m
    cover j (inr n) = h j n
