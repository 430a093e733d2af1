-- ===== src/Lib.antt =====
-- The decision logic of the Crossplane provider for Timeweb Cloud.
--
-- The provider reconciles Kubernetes resources with the Timeweb API. Each controller turns what an
-- operator writes into upstream identifiers by way of the resolver, which reads the upstream's
-- catalogs through a cache. This library models:
--
-- Prelude: shared names; Boolean tests; lists (`keep`, `find`, `In`, `All`); Go strings as lists
--   of code points (`Text`); Go maps as association lists; int64 as `ℤ` with the wrap-around of its
--   subtraction; decimal printing and `strconv.ParseInt`; the runs of handlers (Prelude/Run),
--   `sort.Strings` (Prelude/Sort) and lists as sets (Prelude/Distinct).
-- Resolver, for internal/controller/shared/resolver:
--   Resolver/Errors (errors.go), Resolver/Slug (slug.go: `normalize`, `Slugify`, `SlugWithID`,
--   `splitDisambiguator`, `MatchPresetSlug`), Resolver/Size (match_size.go: `MatchPresetBySize`),
--   Resolver/Configurator (select_configurator.go: `SelectConfigurator`), Resolver/Cache (cache.go:
--   `getOrFetch`, `invalidate`; resolver.go: `clampTTL`), Resolver/Lookup (resolve.go: `Resolve`;
--   dimensions.go: `defaultRegistry`, `classifyUpstream`; and, in Resolver/Lookup/Errors,
--   internal/controller/shared/map_resolver_error.go).
-- Firewall, for internal/controller/network/firewall_external.go, with the data of
--   apis/network/v1alpha1/firewall_types.go and internal/clients/timeweb/firewall.go:
--   Firewall/World (what a handler works on), Firewall/Desired (`ruleKey`, `desiredRuleSet`,
--   `rulesConverged`, the attachments), Firewall/Reconcile (`reconcileRules`,
--   `reconcileAttachments`, `attach`), Firewall/External (`Observe`, `Create`, `Update`, `Delete`).
--   The proofs are in Firewall/Keys, Firewall/Within and Firewall/Budget, Firewall/Split,
--   Firewall/Converge, Firewall/Merge and Firewall/Reach, Firewall/Outcomes, and
--   Firewall/Attachments and Firewall/Idle. The calls of
--   `firewallAPI` are a parameter: each gives an outcome and a new state of the upstream.
--
-- Location, for internal/controller/shared/azlocation.go: the table and `ResolvePlacement`; the
--   proofs are in Location/Table, Location/Index and Location/Placement. The order in which the
--   loop over the Go map meets the table is an argument.
--
-- Classify, for internal/clients/timeweb/errors.go: `Classify`, given the decoded body; the proofs
--   are in Classify/Laws.
--
-- Names, for internal/controller/shared/externalname.go: `EncodeID`, `DecodeID`,
--   `EncodeComposite`, `DecodeComposite`; the proofs are in Names/RoundTrip.
--
-- Kubernetes, for internal/controller/kubernetes/cluster_external.go, cluster_upgrade.go,
--   router_integration.go and configurator.go, with events.go and immutable.go of
--   internal/controller/shared: Kubernetes/World (what a handler works on), Kubernetes/Version
--   (`versionNewer`, `splitVersion`), Kubernetes/Upgrade (`reconcileVersion`, `validateVersion`),
--   Kubernetes/Integration (`readIntegrationState`, `observeRouterIntegration`,
--   `convergeRouterIntegration`), Kubernetes/Sizing (the preset or the configurator, and the body of
--   the create), Kubernetes/Observe, Kubernetes/Create and Kubernetes/Update (the four handlers).
--   The calls of the API are a parameter, as in Firewall; the resolver is `CatalogResolver`, an
--   interface that Kubernetes/Catalog fills with `Resolve`. The proofs are in Kubernetes/Keeps (what
--   makes no call), Kubernetes/ReadOnly, Kubernetes/VersionOrder, Kubernetes/Forward and
--   Kubernetes/Catalog, Kubernetes/Routers and Kubernetes/Converge, Kubernetes/Match
--   and Kubernetes/Adoption, Kubernetes/Changed, Kubernetes/Immutable and Kubernetes/Refusal,
--   Kubernetes/Settled, Kubernetes/Upgraded, Kubernetes/Settles and Kubernetes/UpToDate.
--   Where Go would panic, at a preset name that is nil,
--   the model fails with an error of its own.
--
-- FloatingIp, for internal/controller/compute/floatingip_bind.go and its calls in
--   server_external.go: which floating IPs a server has, and how they are bound and unbound. The
--   proofs are in FloatingIp/Sets (`dedupeStrings`, `stringSetsEqual`), FloatingIp/Assign (the
--   loops) and FloatingIp/Refines. The calls of the API and the rounding to a 32-bit float are
--   parameters.
--
-- Policy, for internal/clients/rgwiam/policy.go: `RenderPolicy`, `PoliciesEqual`, `PolicyHash` and
--   `DeriveLevelForBucket`; the proofs are in Policy/Level and Policy/Equal. The JSON encoding and
--   decoding, the hash and the sorting of the grants are parameters.
--
-- A function that returns a value and an error returns a result type of its part (`Result`,
-- `Outcome`, `Located`) or an `Option`; a method that
-- changes an object returns the new record. An error is a constructor with the fields of its Go
-- struct; message texts are not built. The functions of the Go library that are not modelled are
-- parameters: `unicode.ToLower` (`lower`), of which `IsLower` states that it leaves a-z, 0-9 and the
-- dash alone, and the verb `%q` (`quote`), of which nothing is assumed. The upstream is a parameter
-- too: the outcome of a fetcher, a response, the calls of an API. In Firewall and Kubernetes,
-- `lower` stands for `strings.ToLower`, letter by letter, and `trim` for `strings.TrimSpace`;
-- nothing is assumed of them.
--
-- No model takes fuel but the decimal printer, which is given the number itself; the round trip
-- with the parser shows that this is enough.
--
-- Not modelled: the HTTP clients and the generated API types, the fetchers that read them, the
-- concurrency of the cache (`singleflight`), Kubernetes conditions and events but for those of the
-- firewall and of the cluster, and the controllers that are not named above.
mod Prelude
pub mod Resolver
pub mod Firewall
pub mod Location
pub mod Names
pub mod Classify
pub mod Kubernetes
pub mod Policy
pub mod FloatingIp
