-- ===== src/Tls.antt =====
-- src/tls/reload.rs, src/tls/resolver.rs, src/tls/config.rs: certificates and their activation.
pub mod Config
pub mod State
pub mod Resolver
pub mod ResolverLaws
pub mod Sni
pub mod SniLaws
