-- ===== src/Protocol/Receive/Chunks.antt =====
-- A message of several chunks (src/RtmpProtocol.cpp).
pub mod Next
pub mod Piece
pub mod Filling
pub mod Fresh
pub mod Merging
pub mod Keeps
pub mod Partway
pub mod Begun
pub mod Middle
pub mod Further
pub mod First
pub mod Delivered
pub mod RoundTrip
