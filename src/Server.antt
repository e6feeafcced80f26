-- ===== src/Server.antt =====
-- internal/server: the HTTP API and the mock endpoints behind it.
pub mod Http
pub mod Router
pub mod StaticRoutes
pub mod ProxyRoutes
pub mod Files
pub mod DynamicRoutes
pub mod NoRoute
pub mod PoolBrokers
pub mod EsbBrokers
pub mod Gin
pub mod Serve
