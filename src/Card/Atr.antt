-- ===== src/Card/Atr.antt =====
-- csctapi/atr.c: the answer to reset of a card. An interface byte with `present` false is none.
-- A function that returns `ATR_NOT_FOUND` is none, and what it writes through a pointer is in the
-- result. Doubles are counted in 64ths, in which all values of the tables are whole.
pub mod Parse
pub mod Values
pub mod Raw
pub mod Init
use oscam_vdr.Base.{ℕ, Bool, Option, List}

-- `ib[i]`: TA, TB, TC and TD of one protocol.
pub record IbRow : Type 0 where
  pub ta : Option ℕ
  pub tb : Option ℕ
  pub tc : Option ℕ
  pub td : Option ℕ

pub record Atr : Type 0 where
  pub size : ℕ
  pub ts : ℕ
  pub t0 : ℕ
  pub ib : List IbRow
  pub tck : Option ℕ
  pub pn : ℕ
  pub hb : List ℕ

-- `overrun` is a write behind `ib[ATR_MAX_PROTOCOLS - 1]`, which C does not define.
pub data Parsing {ℓ} (A : Type ℓ) : Type ℓ where
  ok : A → Parsing A
  malformed : Parsing A
  overrun : Parsing A

infixl 5 ◌>>=◌
abbrev pub ◌>>=◌ {ℓ κ} : {A : Type ℓ} {B : Type κ} → Parsing A → (A → Parsing B) → Parsing B
ok a >>= f = f a
malformed >>= f = malformed
overrun >>= f = overrun
