-- ===== src/Books.antt =====
-- Order books: core/orderbook.
pub mod OrderBook
mod Examples
