-- ===== src/Encryption.antt =====
-- The options of an encrypted connection: encryption.h, encryption.cpp, helper.h and helper.cpp of
-- lnetlib/lnetlib.
pub mod Files
pub mod Options
pub mod Laws
