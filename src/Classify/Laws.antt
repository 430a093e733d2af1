-- ===== src/Classify/Laws.antt =====
-- Which responses `Classify` of internal/clients/timeweb/errors.go takes for a missing resource, and
-- which for a failure to be retried.
use crossplane_provider_time.Prelude.{
  ℕ, ◌≡◌, ◌≢◌, refl, ◌↔◌, inl, inr, Text, lit, [], ◌∷◌, some, true, false, arith, Bool-cases, same,
  ◌&&◌, ◌==◌, ltb, leb,
}
use crossplane_provider_time.Classify.{
  Response, success, not_found, transient, api_error, is_transient_status, code_of, classify_404,
  classify_other, classify,
}

classify_404_iff : (code : Text) → (classify_404 code ≡ not_found) ↔ (code ≢ [])
unfolding classify_404
classify_404_iff [] = ((λ h. cc), (λ h. absurd (h refl)))
classify_404_iff (c ∷ code) = ((λ h e. cc), (λ h. refl))

other-not_found : (status : ℕ) (code : Text) → classify_other status code ≢ not_found
unfolding classify_other
other-not_found status code h =
    elim (Bool-cases (status == 403 && same code (lit "networks_location_mismatch"))) [
      | inl t ↦ let g : transient status ≡ not_found = (rw t at h) in cc
      | inr f ↦ let g : api_error status code ≡ not_found = (rw f at h) in cc
    ]

-- A resource counts as missing exactly if the status is 404 and the body is the upstream's envelope
-- with an error code: a bare 404 is none.
pub classify-not_found_iff :
    (r : Response)
    → (classify (some r) ≡ not_found) ↔ ((r.status_code ≡ 404) × (code_of r.envelope ≢ []))
unfolding classify
classify-not_found_iff r = elim (Bool-cases (leb 200 r.status_code && ltb r.status_code 300)) [
  | inl t ↦ ((λ h. let g : success ≡ not_found = (rw t at h) in cc), (λ p. absurd (never t p.0)))
  | inr t ↦ elim (Bool-cases (r.status_code == 404)) [
    | inl u ↦ (
      (λ h. (ground arith, (classify_404_iff (code_of r.envelope)).0 (rw (t, u) at h))),
      (λ p. rw (t, u) ((classify_404_iff (code_of r.envelope)).1 p.1)),
    )
    | inr u ↦ ((λ h. absurd (neither t u h)), (λ p. absurd (off u p.0)))
  ]
]
  where
    never : (leb 200 r.status_code && ltb r.status_code 300) ≡ true → r.status_code ≡ 404 → ⊥
    never t e = ground arith

    off : (r.status_code == 404) ≡ false → r.status_code ≡ 404 → ⊥
    off u e = ground arith

    neither :
        (leb 200 r.status_code && ltb r.status_code 300) ≡ false
        → (r.status_code == 404) ≡ false
        → classify (some r) ≡ not_found
        → ⊥
    neither t u h = elim (Bool-cases (is_transient_status r.status_code)) [
      | inl v ↦ let g : transient r.status_code ≡ not_found = (rw (t, u, v) at h) in cc
      | inr v ↦ other-not_found r.status_code (code_of r.envelope) (rw (t, u, v) at h)
    ]
