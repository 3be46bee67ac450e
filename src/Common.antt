-- ===== src/Common.antt =====
-- common/: the data types and the window arithmetic that both watermark strategies share.
pub mod Types
pub mod Window
pub mod Books
