-- ===== src/Paginate.antt =====
-- paginate.rs: cursors for `tools/list`.
pub mod Base64
pub mod Hmac
pub mod Tags
pub mod Cursor
pub mod Snapshot
pub mod Accepted
pub mod Minted
pub mod Pages
pub mod Walk
pub mod Foreign
mod Tests
