-- ===== src/Resolver.antt =====
-- internal/controller/shared/resolver: from the operator's slugs, sizes and enum strings to the
-- identifiers of the upstream catalog. The children follow the package's files.
pub mod Errors
pub mod Slug
pub mod Size
pub mod Configurator
pub mod Cache
pub mod Lookup
