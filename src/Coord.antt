-- ===== src/Coord.antt =====
-- The coordination server (internal/coord): what it keeps of teams and of admission tokens.
pub mod Teams
pub mod Tokens
pub mod Registry
pub mod Directory
pub mod PeerMap
pub mod Client
pub mod Server
