-- ===== src/Prelude/Decimal.antt =====
-- Decimal numbers as Go prints and reads them: `%d`, `strconv.Itoa`, `strconv.ParseInt(s, 10, 64)`.
use Prim.Native.Nat.{ℕ, zero, suc, ◌+◌, ◌-◌, ◌*◌, ◌/◌, ◌%◌, ◌^◌, ◌≤◌, ◌<◌}
use mathlib.Core.Path.{◌≡◌, refl, ◌∙◌}
use mathlib.Core.Bool.{Bool, true, false, ◌&&◌}
use mathlib.Core.Logic.{inl, inr}
use mathlib.Core.Option.{Option, none, some}
use mathlib.Core.List.{[], ◌∷◌, ◌++◌}
use native.Mathlib.Nat.{pow-suc}
use native.Mathlib.Omega.{arith}
use crossplane_provider_time.Prelude.Tests.{ltb, leb, ◌==◌, if◌then◌else◌, Bool-cases}
use crossplane_provider_time.Prelude.Lists.{length, length-append, All, All-append}
use crossplane_provider_time.Prelude.Strings.{Text}
use crossplane_provider_time.Prelude.Int.{ℤ, pos, negsuc, IsInt64}

abbrev pub is_digit : ℕ → Bool
is_digit c = leb b'0' c && leb c b'9'

-- The digits of `n`, the highest first. `n` itself is fuel enough.
print_digits : ℕ → ℕ → Text
print_digits zero n = (b'0' + n % 10) ∷ []
print_digits (suc fuel) n =
    let high = print_digits fuel (n / 10) in
    if ltb n 10 then (b'0' + n) ∷ [] else high ++ (b'0' + n % 10) ∷ []

unfoldable pub print : ℕ → Text
unfolding print_digits
print n = print_digits n n

unfoldable pub print_int : ℤ → Text
unfolding print
print_int (pos n) = print n
print_int (negsuc n) = b'-' ∷ print (suc n)

scan : ℕ → Text → Option ℕ
scan acc [] = some acc
scan acc (c ∷ s) = if is_digit c then scan (acc * 10 + (c - b'0')) s else none

unfoldable pub parse : Text → Option ℕ
unfolding scan
parse [] = none
parse (c ∷ s) = scan 0 (c ∷ s)

in_range : Bool → Option ℕ → Option ℤ
in_range negative none = none
in_range false (some n) = if ltb n (2 ^ 63) then some (pos n) else none
in_range true (some zero) = some (pos 0)
in_range true (some (suc n)) = if ltb n (2 ^ 63) then some (negsuc n) else none

-- `strconv.ParseInt(s, 10, 64)`; `none` is its error.
unfoldable pub parse_int : Text → Option ℤ
unfolding parse in_range
parse_int [] = none
parse_int (c ∷ s) =
    if c == b'-'
    then in_range true (parse s)
    else if c == b'+'
    then in_range false (parse s)
    else in_range false (parse (c ∷ s))

abbrev pub IsDigit : ℕ → Type 0
IsDigit c = (b'0' ≤ c) × (c ≤ b'9')

print_digits-All : (fuel n : ℕ) → All IsDigit (print_digits fuel n)
unfolding print_digits
print_digits-All zero n = (omega arith, tt)
print_digits-All (suc fuel) n = elim (Bool-cases (ltb n 10)) [
  | inl small ↦ rw small (ground arith, tt)
  | inr big ↦ rw big (
      All-append IsDigit (print_digits fuel (n / 10)) _ (print_digits-All fuel (n / 10))
        (omega arith, tt))
]

pub print-All : (n : ℕ) → All IsDigit (print n)
unfolding print
print-All n = print_digits-All n n

scan-append : (acc n : ℕ) (s t : Text) → scan acc s ≡ some n → scan acc (s ++ t) ≡ scan n t
unfolding scan
scan-append acc n [] t h = ground arith
scan-append acc n (c ∷ s) t h = elim (Bool-cases (is_digit c)) [
  | inl d ↦ rw d (scan-append (acc * 10 + (c - b'0')) n s t (rw d at h))
  | inr d ↦ let e : none ≡ some n = rw d at h in cc
]

scan-print_digits : (fuel n : ℕ) → n ≤ fuel → scan 0 (print_digits fuel n) ≡ some n
unfolding scan print_digits
scan-print_digits zero n h = ground arith
scan-print_digits (suc fuel) n h = elim (Bool-cases (ltb n 10)) [
  | inl small ↦ rw small (ground arith)
  | inr big ↦ rw big (
      scan-append 0 (n / 10) (print_digits fuel (n / 10)) ((b'0' + n % 10) ∷ [])
        (scan-print_digits fuel (n / 10) (ground arith))
      ∙ ground arith)
]

print_digits-ne_nil : (fuel n : ℕ) → (c : ℕ) × (s : Text) × (print_digits fuel n ≡ c ∷ s)
unfolding print_digits
print_digits-ne_nil zero n = (_, _, refl)
print_digits-ne_nil (suc fuel) n = elim (Bool-cases (ltb n 10)) [
  | inl small ↦ (b'0' + n, [], rw small)
  | inr big ↦
      let (c, s, e) = print_digits-ne_nil fuel (n / 10) in
      (c, s ++ (b'0' + n % 10) ∷ [], rw (big, e))
]

pub print-ne_nil : (n : ℕ) → (c : ℕ) × (s : Text) × (print n ≡ c ∷ s)
unfolding print
print-ne_nil n = print_digits-ne_nil n n

parse_of_scan : (n c : ℕ) (s t : Text) → s ≡ c ∷ t → scan 0 s ≡ some n → parse s ≡ some n
unfolding parse
parse_of_scan n c s t e h = rw e (rw e at h)

pub parse-print : (n : ℕ) → parse (print n) ≡ some n
unfolding print
parse-print n =
    let (c, s, e) = print-ne_nil n in
    parse_of_scan n c (print n) s e (scan-print_digits n n (omega arith))

length-print_digits :
    (k fuel n : ℕ) → n ≤ fuel → n < 10 ^ suc k → length (print_digits fuel n) ≤ suc k
unfolding print_digits
length-print_digits k zero n h lt = omega arith
length-print_digits zero (suc fuel) n h lt = ground arith
length-print_digits (suc k) (suc fuel) n h lt = elim (Bool-cases (ltb n 10)) [
  | inl small ↦ rw small (omega arith)
  | inr big ↦
      rw (big, length-append)
        (omega (
          arith,
          length-print_digits k fuel (n / 10) (ground arith) (omega (arith, pow-suc 10 (suc k))),
        ))
]

pub length-print : (k n : ℕ) → n < 10 ^ suc k → length (print n) ≤ suc k
unfolding print
length-print k n lt = length-print_digits k n n (omega arith) lt

head-IsDigit : (c : ℕ) (s t : Text) → t ≡ c ∷ s → All IsDigit t → IsDigit c
head-IsDigit c s t e h = let k : All IsDigit (c ∷ s) = rw e at h in k.0

-- What `%d` prints of an int64 that is not negative, `ParseInt` reads.
pub parse_int-print : (n : ℕ) → n < 2 ^ 63 → parse_int (print n) ≡ some (pos n)
unfolding parse_int
parse_int-print n lt =
    let (c, s, e) = print-ne_nil n in
    let d = head-IsDigit c s (print n) e (print-All n) in
    let p : parse (c ∷ s) ≡ some n = rw e at (parse-print n) in rw e (ground arith)

-- What `strconv.Itoa` prints of an int64, `ParseInt` reads.
pub parse_int-print_int : (z : ℤ) → IsInt64 z → parse_int (print_int z) ≡ some z
unfolding parse_int print_int
parse_int-print_int (pos n) h = unfold parse_int in (parse_int-print n h.0)
parse_int-print_int (negsuc n) h = rw (parse-print (suc n)) (ground arith)
