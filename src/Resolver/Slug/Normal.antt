-- ===== src/Resolver/Slug/Normal.antt =====
-- What `normalize` and `Slugify` of resolver/slug.go give: the canonical slugs.
use crossplane_provider_time.Prelude.{
  ℕ, ◌≡◌, refl, ◌⊎◌, inl, inr, Text, Bool, true, false, [], ◌∷◌, ◌++◌, arith, ◌==◌, Bool-cases,
}
use crossplane_provider_time.Resolver.Slug.{
  dash, is_word, trim_step, trim_right, is_empty, normalize_from, normalize, slugify,
}

-- What may follow: `after_dash` says that a dash, or the start, stands just before.
abbrev Weak : Bool → Text → Type 0
Weak after_dash [] = Unit
Weak after_dash (c ∷ s) =
    ((is_word c ≡ true) × Weak false s) ⊎ ((after_dash ≡ false) × (c ≡ dash) × Weak true s)

-- The same, where no dash may stand at the end.
abbrev pub Clean : Bool → Text → Type 0
Clean after_dash [] = after_dash ≡ false
Clean after_dash (c ∷ s) =
    ((is_word c ≡ true) × Clean false s) ⊎ ((after_dash ≡ false) × (c ≡ dash) × Clean true s)

-- A canonical slug: words of a-z and 0-9 joined by single dashes, or nothing.
abbrev pub IsSlug : Text → Type 0
IsSlug [] = Unit
IsSlug (c ∷ s) = Clean true (c ∷ s)

-- What the code relies on of `unicode.ToLower`: it leaves a-z, 0-9 and the dash as they are.
pub record IsLower (lower : ℕ → ℕ) : Type 0 where
  pub word_fixed : (c : ℕ) → is_word c ≡ true → lower c ≡ c
  pub dash_fixed : lower dash ≡ dash

normalize_from-Weak : (lower : ℕ → ℕ) (b : Bool) (s : Text) → Weak b (normalize_from lower b s)
unfolding normalize_from
normalize_from-Weak lower b [] = tt
normalize_from-Weak lower true (r ∷ s) = elim (Bool-cases (is_word (lower r))) [
  | inl w ↦ rw w (inl (w, normalize_from-Weak lower false s))
  | inr w ↦ rw w (normalize_from-Weak lower true s)
]
normalize_from-Weak lower false (r ∷ s) = elim (Bool-cases (is_word (lower r))) [
  | inl w ↦ rw w (inl (w, normalize_from-Weak lower false s))
  | inr w ↦ rw w (inr (refl, refl, normalize_from-Weak lower true s))
]

not-dash_of_word : (c : ℕ) → is_word c ≡ true → (c == dash) ≡ false
not-dash_of_word c w = ground arith

trim_step_word :
    (b : Bool) (c : ℕ) (t : Text)
    → is_word c ≡ true
    → (t ≡ []) ⊎ Clean false t
    → Clean b (trim_step c t)
unfolding trim_step
trim_step_word true c [] w h = rw (not-dash_of_word c w) (inl (w, refl))
trim_step_word false c [] w h = rw (not-dash_of_word c w) (inl (w, refl))
trim_step_word b c (d ∷ t) w (inl e) = cc
trim_step_word true c (d ∷ t) w (inr h) = inl (w, h)
trim_step_word false c (d ∷ t) w (inr h) = inl (w, h)

trim_step-dash :
    (t : Text) → (t ≡ []) ⊎ Clean true t → (trim_step dash t ≡ []) ⊎ Clean false (trim_step dash t)
unfolding trim_step
trim_step-dash [] h = inl refl
trim_step-dash (d ∷ t) (inl e) = cc
trim_step-dash (d ∷ t) (inr h) = inr (inr (refl, refl, h))

trim_right-Clean : (b : Bool) (s : Text) → Weak b s → (trim_right s ≡ []) ⊎ Clean b (trim_right s)
unfolding trim_right
trim_right-Clean b [] h = inl refl
trim_right-Clean b (c ∷ s) (inl (w, h)) =
    inr (trim_step_word b c (trim_right s) w (trim_right-Clean false s h))
trim_right-Clean true (c ∷ s) (inr (f, e, h)) = cc
trim_right-Clean false (c ∷ s) (inr (f, e, h)) =
    rw e (trim_step-dash (trim_right s) (trim_right-Clean true s h))

IsSlug-of_Clean : (s : Text) → (s ≡ []) ⊎ Clean true s → IsSlug s
IsSlug-of_Clean [] h = tt
IsSlug-of_Clean (c ∷ s) (inl e) = cc
IsSlug-of_Clean (c ∷ s) (inr h) = h

-- Whatever the text, and whatever `unicode.ToLower` does, `normalize` gives a canonical slug:
-- words of a-z and 0-9 joined by single dashes, or nothing.
pub normalize-IsSlug : (lower : ℕ → ℕ) (s : Text) → IsSlug (normalize lower s)
unfolding normalize
normalize-IsSlug lower s =
    IsSlug-of_Clean _
      (trim_right-Clean true (normalize_from lower true s) (normalize_from-Weak lower true s))

trim_step_kept : (c : ℕ) (s : Text) → (is_word c ≡ true) ⊎ Clean true s → trim_step c s ≡ c ∷ s
unfolding trim_step
trim_step_kept c [] (inl w) = rw (not-dash_of_word c w)
trim_step_kept c [] (inr h) = cc
trim_step_kept c (d ∷ t) h = refl

trim_right_of_Clean : (b : Bool) (s : Text) → Clean b s → trim_right s ≡ s
unfolding trim_right
trim_right_of_Clean b [] h = refl
trim_right_of_Clean b (c ∷ s) (inl (w, h)) =
    rw (trim_right_of_Clean false s h) (trim_step_kept c s (inl w))
trim_right_of_Clean b (c ∷ s) (inr (f, e, h)) =
    rw (trim_right_of_Clean true s h) (trim_step_kept c s (inr h))

module _ (lower : ℕ → ℕ) (l : IsLower lower) where
  normalize_from_of_Clean : (b : Bool) (s : Text) → Clean b s → normalize_from lower b s ≡ s
  unfolding normalize_from
  normalize_from_of_Clean b [] h = refl
  normalize_from_of_Clean b (c ∷ s) (inl (w, h)) =
      rw (l.word_fixed c w, w, normalize_from_of_Clean false s h)
  normalize_from_of_Clean b (c ∷ s) (inr (f, e, h)) =
      rw (e, l.dash_fixed, f, normalize_from_of_Clean true s h)

  -- A canonical slug is left as it is.
  pub normalize_of_IsSlug : (s : Text) → IsSlug s → normalize lower s ≡ s
  unfolding normalize
  normalize_of_IsSlug [] h = unfold normalize_from trim_right in refl
  normalize_of_IsSlug (c ∷ s) h =
      rw (normalize_from_of_Clean true (c ∷ s) h) (trim_right_of_Clean true (c ∷ s) h)

Clean-join : (b : Bool) (s t : Text) → Clean b s → Clean true t → Clean b (s ++ dash ∷ t)
Clean-join b [] t h k = inr (h, refl, k)
Clean-join b (c ∷ s) t (inl (w, h)) k = inl (w, Clean-join false s t h k)
Clean-join b (c ∷ s) t (inr (f, e, h)) k = inr (f, e, Clean-join true s t h k)

Clean-of_IsSlug : (s : Text) → is_empty s ≡ false → IsSlug s → Clean true s
unfolding is_empty
Clean-of_IsSlug [] e h = cc
Clean-of_IsSlug (c ∷ s) e h = h

-- Two slugs joined by a dash are a slug.
pub IsSlug-join :
    (s t : Text)
    → is_empty s ≡ false
    → is_empty t ≡ false
    → IsSlug s
    → IsSlug t
    → IsSlug (s ++ dash ∷ t)
unfolding is_empty
IsSlug-join [] t e f h k = cc
IsSlug-join (c ∷ s) t e f h k = Clean-join true (c ∷ s) t h (Clean-of_IsSlug t f k)

-- The slug of an entry is canonical.
pub slugify-IsSlug : (lower : ℕ → ℕ) (s l : Text) → IsSlug (slugify lower s l)
unfolding slugify
slugify-IsSlug lower s l =
    let hs = normalize-IsSlug lower s in
    let hl = normalize-IsSlug lower l in
    let j = IsSlug-join (normalize lower s) (normalize lower l) in
    elim (Bool-cases (is_empty (normalize lower s))) [
      | inl es ↦ elim (Bool-cases (is_empty (normalize lower l))) [
        | inl el ↦ rw (es, el) tt
        | inr el ↦ rw (es, el) hl
      ]
      | inr es ↦ elim (Bool-cases (is_empty (normalize lower l))) [
        | inl el ↦ rw (es, el) hs
        | inr el ↦ rw (es, el) (j es el hs hl)
      ]
    ]

-- If `unicode.ToLower` leaves a-z, 0-9 and the dash alone, normalising a text twice changes nothing
-- more.
pub normalize_idempotent :
    (lower : ℕ → ℕ)
    → IsLower lower
    → (s : Text) → normalize lower (normalize lower s) ≡ normalize lower s
normalize_idempotent lower l s = normalize_of_IsSlug lower l _ (normalize-IsSlug lower s)
