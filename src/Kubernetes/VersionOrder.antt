-- ===== src/Kubernetes/VersionOrder.antt =====
-- `versionNewer` of internal/controller/kubernetes/cluster_upgrade.go is a strict order.
use crossplane_provider_time.Prelude.{ℕ, ◌≡◌, Text, List, [], ◌∷◌, true, false, arith}
use crossplane_provider_time.Kubernetes.Version.{split_version, differ, newer, version_newer}

newer_asym : (xs ys : List ℕ) → newer xs ys ≡ true → newer ys xs ≡ false
unfolding newer differ
newer_asym [] [] h = ground arith
newer_asym [] (y ∷ ys) h = ground (arith, newer_asym [] ys)
newer_asym (x ∷ xs) [] h = ground (arith, newer_asym xs [])
newer_asym (x ∷ xs) (y ∷ ys) h = ground (arith, newer_asym xs ys)

newer_trans : (xs ys zs : List ℕ) → newer xs ys ≡ true → newer ys zs ≡ true → newer xs zs ≡ true
unfolding newer differ
newer_trans [] [] zs h k = ground arith
newer_trans [] (y ∷ ys) [] h k = ground (arith, newer_trans [] ys [])
newer_trans [] (y ∷ ys) (z ∷ zs) h k = ground (arith, newer_trans [] ys zs)
newer_trans (x ∷ xs) [] [] h k = ground arith
newer_trans (x ∷ xs) [] (z ∷ zs) h k = ground (arith, newer_trans xs [] zs)
newer_trans (x ∷ xs) (y ∷ ys) [] h k = ground (arith, newer_trans xs ys [])
newer_trans (x ∷ xs) (y ∷ ys) (z ∷ zs) h k = ground (arith, newer_trans xs ys zs)

-- To be newer is a strict order: no version is newer than one that is newer than it, and what is
-- newer than a newer version is newer.
pub version_newer_strict :
    (a b c : Text)
    → version_newer a b ≡ true
    → version_newer b c ≡ true
    → (version_newer b a ≡ false) × (version_newer a c ≡ true)
unfolding version_newer
version_newer_strict a b c h k = (
  newer_asym (split_version a) (split_version b) h,
  newer_trans (split_version a) (split_version b) (split_version c) h k,
)
