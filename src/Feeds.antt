-- ===== src/Feeds.antt =====
-- core/feeds.
pub mod BinanceFeed
pub mod OkxFeed
pub mod BookManager
mod Examples
