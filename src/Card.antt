-- ===== src/Card.antt =====
-- csctapi: the blocks of the T=1 protocol and the answer to reset of a smart card.
pub mod T1Block
pub mod T1Exchange
pub mod Atr
mod Tests
