-- ===== src/Convert/Clock/Order.antt =====
-- About `comp_timeb`: times as instants in milliseconds.
use oscam_vdr.Base.{ℕ, ◌+◌, ◌*◌, ◌<◌, ◌≡◌, ◌↔◌, arith}
use oscam_vdr.Convert.Clock.{Timeb, minus, nought, plus, comp_timeb}

-- The instant in milliseconds.
abbrev pub instant : Timeb → ℕ
instant t = t.time * 1000 + t.millitm

-- Where the milliseconds are below 1000, `comp_timeb` says which instant is earlier, and 0 only
-- for equal times.
pub comp_timeb-instant :
    (a b : Timeb)
    → a.millitm < 1000
    → b.millitm < 1000
    → ((comp_timeb a b ≡ minus) ↔ (instant a < instant b))
      × ((comp_timeb a b ≡ plus) ↔ (instant b < instant a))
      × ((comp_timeb a b ≡ nought) ↔ (a ≡ b))
unfolding comp_timeb
comp_timeb-instant a b ha hb = ground arith
