-- ===== src/Balance/Tests.antt =====
-- Runs on concrete statistics and readers.
use oscam_vdr.Base.{
  Option, some, if◌then◌else◌, ◌==◌, ℕ, zero, suc, ◌≤◌, ◌≡◌, refl, true, false, none, List, [], ◌∷◌,
  replicate, All, arith,
}
use oscam_vdr.Access.{EcmRequest, empty}
use oscam_vdr.Balance.{ReaderStat, Settings, positive, calc_stat, get_reopen_seconds, rc_found}
use oscam_vdr.Balance.Stats.{StatEntry, new_stat}
use oscam_vdr.Balance.Record.{ReaderLoad, Answer, Matching, add_stat}
use oscam_vdr.Balance.Record.Rings.{Rings, add_stat-Rings}
use oscam_vdr.Balance.Record.Branches.{Has, Known, add_stat-Has_found}
use oscam_vdr.Balance.Selection.Candidates.{Candidate, Stats, ids}
use oscam_vdr.Balance.Selection.Reopening.{Reopened, reopen, reopen_failed}
use oscam_vdr.Balance.Selection.{select, value_stat, value_loop, finish_selection, get_best_reader}
use oscam_vdr.Balance.Selection.Counts.{occ}
use oscam_vdr.Balance.Selection.Asked.{Asks, get_best_reader-Asks}
use oscam_vdr.Balance.Choice.{StatValue, choose, take_best, start_limits}
use oscam_vdr.Balance.Choice.Order.{Ordered, choose-Ordered}

abbrev settings : Settings
settings = record {
  ctimeout = 5000;
  ftimeout = 2500;
  lb_mode = 1;
  lb_nbest_readers = 1;
  lb_nfb_readers = 1;
  lb_min_ecmcount = 5;
  lb_max_ecmcount = 500;
  lb_reopen_seconds = 900;
  lb_reopen_mode = 0;
  lb_retrylimit = 800;
  lb_stat_cleanup = 336;
  lb_retrylimittab = [];
  lb_nbest_readers_tab = [];
  lb_noproviderforcaid = 9 ∷ [];
  overflowed = 0;
}

abbrev stat_a : ReaderStat
stat_a = record (new_stat 2500 0 7 100) { time_stat = 300 ∷ 0 ∷ 500 ∷ replicate 7 0 }

abbrev stat_b : ReaderStat
stat_b = record (new_stat 2500 0 8 0) { last_received = 90 }

abbrev list : List StatEntry
list = record { stat = stat_a; flag = 0 } ∷ record { stat = stat_b; flag = 0 } ∷ []

abbrev request : EcmRequest
request = record {
  caid = 2500;
  ocaid = 0;
  prid = 33;
  srvid = 8;
  chid = 0;
  ecm = [];
  l = 120;
  rc_ex = 0;
  msglog = empty;
}

abbrev load : ReaderLoad
load = record {
  lb_stat = list;
  lb_usagelevel = 0;
  lb_usagelevel_ecmcount = 0;
  lb_usagelevel_time = 0;
}

abbrev matching : Matching
matching = record { client = true; nodes = (16, 3) ∷ []; fallback = 16 }

abbrev answer : ℕ → ℕ → Answer
answer rc time = record { ctime = 100; login = 1; pending = 0; ecm_time = time; rc = rc }

-- The average of the two times that count.
average : (calc_stat stat_a).time_avg ≡ 400
unfolding calc_stat
average = refl

no_time : false ≡ true → (300 ≤ 0) × (0 ≤ 500)
no_time e = absurd (ground (arith, e))

no_times : (n : ℕ) → All (λ (x : ℕ). positive x ≡ true → (300 ≤ x) × (x ≤ 500)) (replicate n 0)
no_times zero = tt
no_times (suc n) = (no_time, no_times n)

times_small : All (λ (x : ℕ). positive x ≡ true → (300 ≤ x) × (x ≤ 500)) stat_a.time_stat
times_small =
    (λ e. (omega arith, omega arith), (no_time, (λ e. (omega arith, omega arith), no_times 7)))

add_stat-Rings_example :
    Rings (add_stat settings true matching 3 request (answer 0 3000) load).lb_stat
add_stat-Rings_example =
    add_stat-Rings settings true matching 3 request (answer 0 3000) load
      ((refl, omega arith), ((refl, omega arith), tt))

add_stat-Has_found_example :
    Has request 0
      (λ stat. Known 100 rc_found stat × (stat.fail_factor ≡ 0))
      (add_stat settings true matching 3 request (answer 0 3000) load).lb_stat
add_stat-Has_found_example =
    add_stat-Has_found settings matching 3 request (answer 0 3000) load (omega arith) refl

abbrev value : ℕ → ℕ → StatValue
value rdr v = record { rdr = rdr; value = v; time = v; network = true; timeout = false }

abbrev three : List StatValue
three = value 1 700 ∷ value 2 300 ∷ value 3 500 ∷ []

choose-Ordered_example : Ordered 0 (choose 4 (start_limits 0 1 1 none) three)
choose-Ordered_example = choose-Ordered 4 (start_limits 0 1 1 none) three (omega arith) refl

abbrev candidate : ℕ → Candidate
candidate rdr = record {
  rdr = rdr;
  lb_weight = 100;
  hassrvid = rdr == 2;
  network = true;
  available = none;
  pending = 0;
  age = 0;
  lb_usagelevel = 0;
}

abbrev three_readers : List Candidate
three_readers = candidate 1 ∷ candidate 2 ∷ candidate 3 ∷ []

-- The first reader answers slowly, the second and the third have failed.
abbrev known : Stats
known rdr = some (record stat_b {
  rc = if rdr == 1 then 0 else if rdr == 2 then 5 else 4;
  ecm_count = 10;
  time_avg = if rdr == 1 then 900 else 1000;
})

abbrev asked_by : Option Reopened → List ℕ × Option ℕ
asked_by none = ([], none)
asked_by (some d) = (d.asked, d.marked)

-- Both are tried again. The second was taken as a fallback before: its node is freed, and `fallback`
-- is left pointing to it.
get_best_reader-retries :
    asked_by (get_best_reader settings false 0 100000 2500 none three_readers known)
    ≡ (3 ∷ 2 ∷ 1 ∷ [], none)
unfolding get_best_reader value_loop value_stat select finish_selection choose take_best reopen
    reopen_failed get_reopen_seconds
get_best_reader-retries = refl

-- With a fast reader none is.
get_best_reader-fast :
    asked_by (
      get_best_reader
        (record settings { lb_retrylimit = 1000 })
        false
        0
        100000
        2500
        none
        three_readers
        known)
    ≡ (1 ∷ 2 ∷ [], some 2)
unfolding get_best_reader value_loop value_stat select finish_selection choose take_best reopen
    reopen_failed get_reopen_seconds
get_best_reader-fast = refl

get_best_reader-Asks_example :
    Asks 2
      (occ 2 (ids three_readers))
      (get_best_reader settings false 0 100000 2500 none three_readers known)
get_best_reader-Asks_example =
    get_best_reader-Asks settings false 0 100000 2500 none three_readers known 2
