-- ===== src/Crypto.antt =====
-- kernel/crypto: the two hash functions, and what they share.
pub mod Blocks
pub mod Md5
pub mod Sha1
pub mod Tests
