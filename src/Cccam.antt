-- ===== src/Cccam.antt =====
-- module-cccam.c: the ciphers of the CCcam protocol and the service lists of its cards.
pub mod Crypt
pub mod Sids
mod Tests
