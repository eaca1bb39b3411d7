-- ===== src/Http.antt =====
-- The directory http: the cache of responses on disk, the client over libcurl and the market data provider.
pub mod Action
pub mod Model
pub mod World
pub mod Headers
pub mod CacheMeta
pub mod Cache
pub mod Client
pub mod Provider
