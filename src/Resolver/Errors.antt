-- ===== src/Resolver/Errors.antt =====
-- internal/controller/shared/resolver/errors.go, and the inputs of resolver.go that the errors
-- carry. A typed error is a constructor with the fields of its struct; the sentinel that it wraps
-- is the constructor. The text of a message is not built.
use crossplane_provider_time.Prelude.{ℕ, Text, List, Bool, Option}
use crossplane_provider_time.Prelude.Int.{ℤ}

-- The values that a filter map holds (`map[string]any`).
pub data FilterValue : Type 0 where
  text : Text → FilterValue
  flag : Bool → FilterValue
  int : ℤ → FilterValue

-- The reason strings of a rejection, one constructor for each format.
pub data Reason : Type 0 where
  no_reason no_entries : Reason
  missing_filter : Text → Reason
  filter_differs : Text → FilterValue → FilterValue → Reason
  missing_tag : Text → List Text → Reason
  axis_not_supported : Text → Reason
  axis_outside : Text → ℤ → ℤ → ℤ → Reason
  axis_not_aligned : Text → ℤ → ℤ → ℤ → Reason
  only_promo : List ℤ → Reason

pub record ConfiguratorRejection : Type 0 where
  pub upstream_id : ℤ
  pub reason : Reason

pub data ResolverError : Type 0 where
  preset_not_found :
      (slug : Text) (valid_slugs : List Text) (dimension_id location : Text) → ResolverError
  preset_ambiguous :
      (slug : Text) (upstream_ids : List ℤ) (dimension_id disambiguate : Text) → ResolverError
  no_configurator_available :
      (filters : List (Text × FilterValue)) (sizing : List (Text × ℤ))
      → ConfiguratorRejection
      → (dimension_id : Text) → ResolverError
  dimension_value_not_found :
      (value : Text) (valid_values : List Text) (dimension_id : Text) → ResolverError
  catalog_unauthorized : (status : ℕ) (request_id : Text) → ResolverError
  -- `none` is a catalog with no entries.
  catalog_transient : (status : Option ℕ) (request_id : Text) → ResolverError
  invalid_input : ResolverError
  unknown_dimension : Text → ResolverError
  dimension_fetcher_unwired : ResolverError
  -- `catalog HTTP %d`: another 4xx, with no sentinel.
  catalog_http : (status : ℕ) (request_id : Text) → ResolverError

-- The two results of a Go function, of which one is the zero value.
pub data Result {ℓ} (A : Type ℓ) : Type ℓ where
  ok : A → Result A
  err : ResolverError → Result A

infixl 5 ◌>>=◌
abbrev pub ◌>>=◌ {ℓ κ} : {A : Type ℓ} {B : Type κ} → Result A → (A → Result B) → Result B
ok a >>= f = f a
err e >>= f = err e
