-- ===== src/Balance/Selection/Candidates.antt =====
-- module-stat.c, `get_best_reader`: what it asks of the readers, and their statistics for a service.
use oscam_vdr.Base.{List, [], ◌∷◌, ℕ, Bool, Option, none, some, ◌==◌, if◌then◌else◌}
use oscam_vdr.Balance.{ReaderStat, positive, rc_found}

-- What `get_best_reader` asks of a reader that matches. `hassrvid` is that of the loop, `available`
-- none without `c_available`, `pending` that of its client, and `age` the milliseconds from
-- `nulltime` to `lb_last`, 0 for a reader that was never taken.
pub record Candidate : Type 0 where
  pub rdr : ℕ
  pub lb_weight : ℕ
  pub hassrvid : Bool
  pub network : Bool
  pub available : Option Bool
  pub pending : ℕ
  pub age : ℕ
  pub lb_usagelevel : ℕ

abbrev pub Stats : Type 0
Stats = ℕ → Option ReaderStat

-- `reset_stat`, for every reader.
abbrev pub reset : Option ReaderStat → Option ReaderStat
reset none = none
reset (some stat) = some (record stat {
  ecm_count = if positive stat.ecm_count then 1 else stat.ecm_count;
  rc = rc_found;
  fail_factor = 0;
})

abbrev pub with_stat : ℕ → ReaderStat → Stats → Stats
with_stat rdr stat stats r = if r == rdr then some stat else stats r

-- The list of the readers.
abbrev pub ids : List Candidate → List ℕ
ids [] = []
ids (c ∷ cs) = c.rdr ∷ ids cs
