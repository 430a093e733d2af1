-- ===== src/Prelude/Sort.antt =====
-- `sort.Strings`: the result does not depend on the order of the list.
use mathlib.Core.Path.{◌≡◌, refl, ap, sym, ◌∙◌}
use mathlib.Core.Logic.{inl, inr}
use mathlib.Core.Bool.{true, false}
use mathlib.Core.List.{List, [], ◌∷◌, Permᴰ}
use mathlib.Core.List.Permᴰ.{nil, cons, swap, trans}
use native.Mathlib.Omega.{arith}
use crossplane_provider_time.Prelude.Tests.{if◌then◌else◌, Bool-cases}
use crossplane_provider_time.Prelude.Strings.{Text, ltb_text}

unfoldable pub insert_text : Text → List Text → List Text
insert_text a [] = a ∷ []
insert_text a (q ∷ l) = let rest = insert_text a l in if ltb_text q a then q ∷ rest else a ∷ q ∷ l

-- `sort.Strings`, of which only the result is fixed.
unfoldable pub sort_strings : List Text → List Text
unfolding insert_text
sort_strings [] = []
sort_strings (a ∷ l) = insert_text a (sort_strings l)

ltb_text_asym : (s t : Text) → ltb_text s t ≡ true → ltb_text t s ≡ false
unfolding ltb_text
ltb_text_asym [] [] h = cc
ltb_text_asym [] (d ∷ t) h = refl
ltb_text_asym (c ∷ s) [] h = cc
ltb_text_asym (c ∷ s) (d ∷ t) h = ground (arith, ltb_text_asym s t)

ltb_text_total : (s t : Text) → ltb_text s t ≡ false → ltb_text t s ≡ false → s ≡ t
unfolding ltb_text
ltb_text_total [] [] h k = refl
ltb_text_total [] (d ∷ t) h k = cc
ltb_text_total (c ∷ s) [] h k = cc
ltb_text_total (c ∷ s) (d ∷ t) h k = ground (arith, ltb_text_total s t)

-- What is not above `s` is below what is above `s`.
ltb_text_trans : (q b a : Text) → ltb_text q b ≡ false → ltb_text q a ≡ true → ltb_text b a ≡ true
unfolding ltb_text
ltb_text_trans [] [] a h k = k
ltb_text_trans [] (d ∷ t) a h k = cc
ltb_text_trans (c ∷ s) [] [] h k = cc
ltb_text_trans (c ∷ s) [] (e ∷ u) h k = refl
ltb_text_trans (c ∷ s) (d ∷ t) [] h k = cc
ltb_text_trans (c ∷ s) (d ∷ t) (e ∷ u) h k = ground (arith, ltb_text_trans s t u)

insert_two :
    (a b : Text) (l : List Text)
    → (if ltb_text b a then b ∷ a ∷ l else a ∷ b ∷ l)
      ≡ (if ltb_text a b then a ∷ b ∷ l else b ∷ a ∷ l)
insert_two a b l = elim (Bool-cases (ltb_text b a)) [
  | inl t ↦ rw (t, ltb_text_asym b a t) refl
  | inr f ↦ elim (Bool-cases (ltb_text a b)) [
    | inl t ↦ rw (f, t) refl
    | inr g ↦
        rw (f, g)
          (ap (λ x. x ∷ b ∷ l) (ltb_text_total a b g f)
            ∙ ap (λ x. b ∷ x ∷ l) (sym (ltb_text_total a b g f)))
  ]
]

insert_text_comm :
    (a b : Text) (l : List Text) → insert_text a (insert_text b l) ≡ insert_text b (insert_text a l)
unfolding insert_text
insert_text_comm a b [] = insert_two a b []
insert_text_comm a b (q ∷ l) = elim (Bool-cases (ltb_text q a)) [
  | inl t ↦ elim (Bool-cases (ltb_text q b)) [
    | inl u ↦ rw (t, u) (rw t (ap (λ m. q ∷ m) (insert_text_comm a b l)))
    | inr g ↦ rw (t, g) (rw (ltb_text_trans q b a g t, t) refl)
  ]
  | inr f ↦ elim (Bool-cases (ltb_text q b)) [
    | inl u ↦ rw (f, u) (rw (ltb_text_trans q a b f u, f) refl)
    | inr g ↦ rw (f, g) (rw f (insert_two a b (q ∷ l)))
  ]
]

pub sort_strings-Permᴰ : {l m : List Text} → Permᴰ l m → sort_strings l ≡ sort_strings m
unfolding sort_strings
sort_strings-Permᴰ nil = refl
sort_strings-Permᴰ (cons {b = b} {l₁ = l} e d) =
    ap (λ x. insert_text x (sort_strings l)) e ∙ ap (insert_text b) (sort_strings-Permᴰ d)
sort_strings-Permᴰ (swap {a = a} {b = b} {a' = a'} {l = l} e f) =
    insert_text_comm a b (sort_strings l)
    ∙ ap (λ x. insert_text x (insert_text a (sort_strings l))) f
    ∙ ap (λ x. insert_text a' (insert_text x (sort_strings l))) e
sort_strings-Permᴰ (trans d f) = sort_strings-Permᴰ d ∙ sort_strings-Permᴰ f
