-- ===== src/Balance/Stats.antt =====
-- module-stat.c: the list of statistics of a reader. It is its nodes in order, each with its flag:
-- LinkedList has the operations on the nodes in memory.
pub mod Lookup
pub mod Cleanup
use oscam_vdr.Base.{
  ℕ, zero, suc, ◌+◌, Bool, true, false, ◌&&◌, ◌||◌, Option, none, some, List, [], ◌∷◌, ◌++◌, ltb,
  ◌==◌, nonzero, if◌then◌else◌, u8, length, replicate,
}
use oscam_vdr.Balance.{ReaderStat, negative, get_prid, undef_avg_time}

pub record StatEntry : Type 0 where
  pub stat : ReaderStat
  pub flag : ℕ

-- The entries before one, the one, and those behind it.
pub record Place : Type 0 where
  pub before : List StatEntry
  pub here : StatEntry
  pub behind : List StatEntry

abbrev pub entries : Place → List StatEntry
entries p = p.before ++ (p.here ∷ p.behind)

-- `stat->caid==caid && stat->prid==prid && stat->srvid==srvid`
abbrev pub same_service : ℕ → ℕ → ℕ → ReaderStat → Bool
same_service caid prid srvid stat = stat.caid == caid && stat.prid == prid && stat.srvid == srvid

-- What the loop of `get_stat` breaks at, which takes the length of the ECM if it had none.
abbrev pub fits : ℕ → ℕ → ℕ → ℕ → ReaderStat → Option ReaderStat
fits caid prid srvid ecmlen stat =
    if same_service caid prid srvid stat
    then (if stat.ecmlen == ecmlen
        then some stat
        else if stat.ecmlen == 0
        then some (record stat { ecmlen = ecmlen })
        else none)
    else none

abbrev pub found_first :
    StatEntry → List StatEntry → Option ReaderStat → Option Place → Option Place
found_first e es (some stat) later =
    some (record { before = []; here = record e { stat = stat }; behind = es })
found_first e es none none = none
found_first e es none (some p) = some (record p { before = e ∷ p.before })

-- The loop of `get_stat`.
abbrev pub search : (ReaderStat → Option ReaderStat) → List StatEntry → Option Place
search fit [] = none
search fit (e ∷ es) = found_first e es (fit e.stat) (search fit es)

-- `ll_iter_move_first` of the entry at a place.
abbrev pub move_first : Place → Place
move_first p =
    if nonzero p.here.flag
    then record p { here = record p.here { flag = u8 (p.here.flag + 1) } }
    else record { before = []; here = record p.here { flag = 1 }; behind = p.before ++ p.behind }

abbrev pub faster : Option Place → Option Place
faster none = none
faster (some p) = some (if ltb 10 (length p.before + 1) then move_first p else p)

-- None if there is no such entry, and the list is as it was.
unfoldable pub get_stat : List ℕ → ℕ → ℕ → ℕ → ℕ → List StatEntry → Option Place
get_stat tab caid prid srvid ecmlen es =
    faster (search (fits caid (get_prid tab caid prid) srvid ecmlen) es)

-- How often `remove_stat` called `ll_iter_remove_data`, and the list. A node whose flag is set
-- stays.
abbrev pub remove_where : (ReaderStat → Bool) → List StatEntry → ℕ × List StatEntry
remove_where unwanted [] = (0, [])
remove_where unwanted (e ∷ es) =
    let (n, rest) = remove_where unwanted es in
    if unwanted e.stat
    then (if nonzero e.flag
        then (n + 1, record e { flag = u8 (e.flag + 1) } ∷ rest)
        else (n + 1, rest))
    else (n, e ∷ rest)

unfoldable pub remove_stat : ℕ → ℕ → ℕ → ℕ → List StatEntry → ℕ × List StatEntry
remove_stat caid prid srvid ecmlen =
    remove_where
      λ stat. same_service caid prid srvid stat && (stat.ecmlen == 0 || stat.ecmlen == ecmlen)

-- The loop of `housekeeping_stat_thread` over the list of one reader.
unfoldable pub housekeeping : ℕ → List StatEntry → ℕ × List StatEntry
housekeeping cleanup_time = remove_where λ stat. ltb stat.last_received cleanup_time

abbrev pub new_stat : ℕ → ℕ → ℕ → ℕ → ReaderStat
new_stat caid prid srvid ecmlen = record {
  rc = 0;
  caid = caid;
  prid = prid;
  srvid = srvid;
  ecmlen = ecmlen;
  last_received = 0;
  ecm_count = 0;
  time_avg = undef_avg_time;
  time_stat = replicate 10 0;
  time_idx = 0;
  fail_factor = 0;
}

abbrev pub counted_up : ReaderStat → ReaderStat
counted_up stat = if negative stat.ecm_count then record stat { ecm_count = 0 } else stat

-- A new entry is appended; `cs_malloc` is taken to succeed.
unfoldable pub get_add_stat : List ℕ → ℕ → ℕ → ℕ → ℕ → List StatEntry → Place
get_add_stat tab caid prid srvid ecmlen es = elim (get_stat tab caid prid srvid ecmlen es) [
  | none ↦ record {
    before = es;
    here = record { stat = new_stat caid prid srvid ecmlen; flag = 0 };
    behind = [];
  }
  | some p ↦ record p { here = record p.here { stat = counted_up p.here.stat } }
]
