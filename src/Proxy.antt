-- ===== src/Proxy.antt =====
-- internal/proxy/proxy.go: the Caddy front door that many apps share.
pub mod Caddyfile
pub mod Sync
mod Order
mod Fresh
mod Tests
