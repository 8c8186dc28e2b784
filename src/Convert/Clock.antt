-- ===== src/Convert/Clock.antt =====
-- `comp_timeb` of oscam-simples.c.
pub mod Order
use oscam_vdr.Base.{ℕ, ltb, if◌then◌else◌}

-- `struct timeb`: seconds and milliseconds.
pub record Timeb : Type 0 where
  pub time : ℕ
  pub millitm : ℕ

-- The results -1, 0 and 1.
pub data Sign : Type 0 where
  minus nought plus : Sign

unfoldable pub comp_timeb : Timeb → Timeb → Sign
comp_timeb a b =
    if ltb b.time a.time
    then plus
    else if ltb a.time b.time
    then minus
    else if ltb b.millitm a.millitm
    then plus
    else if ltb a.millitm b.millitm
    then minus
    else nought
