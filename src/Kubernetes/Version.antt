-- ===== src/Kubernetes/Version.antt =====
-- The comparison of versions of internal/controller/kubernetes/cluster_upgrade.go.
use crossplane_provider_time.Prelude.{
  ℕ, ◌+◌, ◌*◌, ◌-◌, ◌^◌, Text, List, [], ◌∷◌, map, Bool, true, false, ◌&&◌, ◌==◌, ltb,
  if◌then◌else◌,
}
use crossplane_provider_time.Prelude.Decimal.{is_digit}

-- `strings.TrimPrefix(v, "v")`
trim_v : Text → Text
trim_v [] = []
trim_v (c ∷ s) = if c == b'v' then s else c ∷ s

-- What is before the build metadata.
before_plus : Text → Text
before_plus [] = []
before_plus (c ∷ s) = let rest = before_plus s in if c == b'+' then [] else c ∷ rest

-- `strings.Split(v, ".")`
abbrev put_first : ℕ → List Text → List Text
put_first c [] = (c ∷ []) ∷ []
put_first c (part ∷ parts) = (c ∷ part) ∷ parts

split_dots : Text → List Text
split_dots [] = [] ∷ []
split_dots (c ∷ s) = let rest = split_dots s in if c == b'.' then [] ∷ rest else put_first c rest

-- The number of the digits with which a text begins, and 0 where there are none.
digits_from : ℕ → Text → ℕ
digits_from acc [] = acc
digits_from acc (c ∷ s) =
    let rest = digits_from (acc * 10 + (c - b'0')) s in if is_digit c then rest else acc

-- `strconv.Atoi` gives the largest int where the number is out of range.
pub leading_int : Text → ℕ
unfolding digits_from
leading_int s = let n = digits_from 0 s in if ltb n (2 ^ 63) then n else 2 ^ 63 - 1

unfoldable pub split_version : Text → List ℕ
unfolding trim_v before_plus split_dots leading_int
split_version v = map leading_int (split_dots (before_plus (trim_v v)))

unfoldable pub all_zero : List ℕ → Bool
all_zero [] = true
all_zero (x ∷ xs) = x == 0 && all_zero xs

-- The loop of `versionNewer`; a part that is missing is 0.
unfoldable pub differ : ℕ → ℕ → Bool → Bool
differ x y rest = if x == y then rest else ltb y x

unfoldable pub newer : List ℕ → List ℕ → Bool
unfolding differ
newer [] [] = false
newer [] (y ∷ ys) = differ 0 y (newer [] ys)
newer (x ∷ xs) [] = differ x 0 (newer xs [])
newer (x ∷ xs) (y ∷ ys) = differ x y (newer xs ys)

unfoldable pub version_newer : Text → Text → Bool
unfolding newer
version_newer a b = newer (split_version a) (split_version b)

-- What a run at concrete versions has to see through.
unfoldable pub version_run : Unit {0}
unfolding version_newer split_version split_dots before_plus trim_v leading_int digits_from newer
    differ
version_run = tt
