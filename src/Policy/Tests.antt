-- ===== src/Policy/Tests.antt =====
-- Runs of internal/clients/rgwiam/policy.go, and its theorems at concrete grants.
use mathlib.Core.List.Permᴰ as Permᴰ
use mathlib.Core.List.Permᴰ.{swap}
use crossplane_provider_time.Prelude.{
  ◌≡◌, refl, Text, lit, List, [], ◌∷◌, Option, some, true, false, if◌then◌else◌, same, same_refl,
  ◌++◌, All,
}
use crossplane_provider_time.Policy.{
  level_admin, level_read_write, Grant, Statement, PolicyDoc, join, statements, arn, arn_objects,
  writes, policy_doc, render_policy, derive_level_for_bucket, policies_equal,
}
use crossplane_provider_time.Policy.Level.{
  IsApart, granted, highest, derive_level_for_bucket-render_policy,
}
use crossplane_provider_time.Policy.Equal.{policies_equal-render_policy}

abbrev in_order : List Grant → List Grant
in_order l = l

abbrev logs : Grant
logs = record { bucket = lit "logs"; level = level_read_write }

abbrev media : Grant
media = record { bucket = lit "media"; level = level_admin }

abbrev one : List Grant
one = logs ∷ media ∷ []

abbrev other : List Grant
other = media ∷ logs ∷ []

-- The resources of a document, in place of its JSON.
resources : List Statement → Text
unfolding join
resources [] = []
resources (s ∷ l) = join (lit ",") s.resource ++ resources l

abbrev print : PolicyDoc → Option Text
print p = some (resources p.statement)

abbrev text_of : List Grant → Text
text_of grants = resources (policy_doc in_order grants).statement

-- What was printed is parsed again.
abbrev parse : Text → Option PolicyDoc
parse doc =
    some (if same doc (text_of one) then policy_doc in_order one else policy_doc in_order other)

parse-one : parse (text_of one) ≡ some (policy_doc in_order one)
parse-one = rw (same_refl (text_of one)) refl

other_differs : same (text_of other) (text_of one) ≡ false
unfolding same resources policy_doc statements arn arn_objects
other_differs = refl

parse-other : parse (text_of other) ≡ some (policy_doc in_order other)
parse-other = rw other_differs refl

printed : (grants : List Grant) → render_policy print in_order grants ≡ some (text_of grants)
unfolding render_policy
printed grants = refl

one-IsApart : All (IsApart (lit "media")) one
one-IsApart = (((λ e. cc), (λ e. cc)), (((λ e. cc), (λ e. cc)), tt))

derive_level_for_bucket-render_policy_example :
    derive_level_for_bucket parse (text_of one) (lit "media") ≡ highest (lit "media") one
derive_level_for_bucket-render_policy_example =
    derive_level_for_bucket-render_policy print parse in_order one (lit "media") (text_of one)
      (printed one) parse-one (λ gs. Permᴰ.refl gs) one-IsApart

media_is_admin : highest (lit "media") one ≡ (level_admin, true)
unfolding granted writes same
media_is_admin = refl

policies_equal-render_policy_example :
    policies_equal (λ c. c) parse (text_of one) (text_of other) ≡ true
policies_equal-render_policy_example =
    policies_equal-render_policy (λ c. c) print parse in_order one other (text_of one)
      (text_of other) (printed one) (printed other) parse-one parse-other (λ gs. Permᴰ.refl gs)
      (swap refl refl)
