-- ===== src/Server/Tasks.antt =====
-- oscam.c: the tasks of the clients, which are ECMs that wait for an answer, and the answers.
-- Response times, the log and the web interface's data are left out, and so is the call of `ac_chk`
-- in `send_dcw`, which changes nothing here at its level 1.
pub mod Answers
pub mod Views
pub mod Charge
pub mod Once
pub mod Pending
pub mod Places
pub mod Misses
pub mod Rounds
pub mod Counts
pub mod Sums
pub mod Submit
use oscam_vdr.Base.{
  ℕ, suc, Bool, true, false, ◌&&◌, ◌||◌, not, Option, none, some, List, [], ◌∷◌, ◌++◌, ◌==◌, ltb,
  leb, nonzero, if◌then◌else◌, bit_and, get_elem?, set, replicate,
}
use oscam_vdr.Server.{
  Request, e_found, e_cache1, e_cache2, e_emu, e_notfound, e_timeout, e_fake, e_corrupt, e_nocard,
  e_99, e_unhandled,
}
use oscam_vdr.Server.Cache.{Cache}

-- The counters that a client, an account and the server have.
pub record Counters : Type 0 where
  pub cwfound : ℕ
  pub cwcache : ℕ
  pub cwnot : ℕ
  pub cwtout : ℕ
  pub cwignored : ℕ

-- What these functions use of `struct s_client`. `multi` is that of its protocol handler, `pipe`
-- whether `fd_m2c` is not 0, `typ_c` whether `typ` is 'c', and `account` a place in the list of the
-- accounts. `ecmtask` is none before its first use.
pub record TaskClient : Type 0 where
  pub ecmtask : Option (List Request)
  pub multi : Bool
  pub pipe : Bool
  pub typ_c : Bool
  pub grp : ℕ
  pub account : ℕ
  pub pending : ℕ
  pub counters : Counters

-- The calls that leave this part: `add_stat`, the protocol's `send_dcw`, and `write_to_pipe` to a
-- client and to a reader.
pub data Output : Type 0 where
  stat : Option ℕ → Request → ℕ → Output
  dcw : ℕ → Request → Output
  piped : ℕ → Request → Output
  requested : ℕ → Request → Output

-- The clients behind `first_client`, which counts for all of them; the output, the first first.
pub record Hub : Type 0 where
  pub clients : List TaskClient
  pub accounts : List Counters
  pub total : Counters
  pub cache : Cache
  pub output : List Output

-- `CS_MAXPENDING`, without `CS_EMBEDDED`.
abbrev pub max_pending : ℕ
max_pending = 32

abbrev pub is_pending : Request → Bool
is_pending er = leb e_99 er.rc

-- What `memset` leaves.
abbrev pub blank : Request
blank = record {
  ecm = replicate 512 0;
  cw = replicate 16 0;
  ecmd5 = replicate 16 0;
  l = 0;
  caid = 0;
  ocaid = 0;
  prid = 0;
  selected_reader = none;
  matching_rdr = [];
  fallback = none;
  stage = 0;
  locals_done = false;
  client = none;
  cpti = 0;
  rc = 0;
  rc_ex = 0;
  tps = 0;
  tps_millitm = 0;
  btun = false;
  ecmcacheptr = none;
}

-- The loop of `get_ecmtask`: the first free place from `i` on, and how many wait before it.
unfoldable pub free_task : ℕ → List Request → Option ℕ × ℕ
free_task i [] = (none, 0)
free_task i (t ∷ ts) =
    let rest = free_task (suc i) ts in if ltb t.rc e_99 then (some i, 0) else (rest.0, suc rest.1)

abbrev pub tasks_of : TaskClient → List Request
tasks_of cl = elim cl.ecmtask [
  | some tasks ↦ tasks
  | none ↦ replicate (if cl.multi then max_pending else 1) blank
]

-- The end of `get_ecmtask`, for the place and the number of those that wait before it.
unfoldable pub take_task :
    ℕ → ℕ → ℕ → TaskClient → List Request → Option ℕ × ℕ → TaskClient × Option ℕ
take_task time millitm k cl tasks place = elim place.0 [
  | none ↦ (record cl { ecmtask = some tasks; pending = suc place.1 }, none)
  | some n ↦ (
    record cl {
      ecmtask = some (
          set tasks n (record blank {
            rc = e_unhandled;
            cpti = n;
            client = some k;
            tps = time;
            tps_millitm = millitm;
          }));
      pending = suc place.1;
    },
    some n,
  )
]

-- `time` and `millitm` are what `cs_ftime` gives. The place is none where all are taken.
unfoldable pub get_ecmtask : ℕ → ℕ → ℕ → TaskClient → TaskClient × Option ℕ
get_ecmtask time millitm k cl =
    take_task time millitm k cl (tasks_of cl)
      (if cl.multi then free_task 0 (tasks_of cl) else (some 0, 0))

abbrev pub emit : Output → Hub → Hub
emit o s = record s { output = s.output ++ (o ∷ []) }

unfoldable pub send_reader_stat : Option ℕ → Request → ℕ → Hub → Hub
send_reader_stat rdr er rc s = if leb e_99 rc then s else emit (stat rdr er rc) s

unfoldable pub all_zero : List ℕ → Bool
all_zero [] = true
all_zero (b ∷ bs) = not (nonzero b) && all_zero bs

-- `checkCW`: what `er->rc` is afterwards.
unfoldable pub check_cw : Request → ℕ
check_cw er = if all_zero er.cw then e_notfound else er.rc

-- The `switch` of `send_dcw`.
abbrev pub count : ℕ → ℕ → Counters → Counters
count rc rc_ex c =
    if rc == e_found || rc == e_emu
    then record c { cwfound = suc c.cwfound }
    else if rc == e_cache1 || rc == e_cache2
    then record c { cwcache = suc c.cwcache }
    else if rc == e_notfound || (rc == e_corrupt || rc == e_nocard)
    then (if nonzero rc_ex
        then record c { cwignored = suc c.cwignored }
        else record c { cwnot = suc c.cwnot })
    else if rc == e_timeout
    then record c { cwtout = suc c.cwtout }
    else record c { cwignored = suc c.cwignored }

-- The counters of the client, its account and the server.
unfoldable pub count_all : ℕ → ℕ → ℕ → Hub → Hub
count_all k rc rc_ex s = elim (get_elem? s.clients k) [
  | none ↦ s
  | some cl ↦ record s {
    clients = set s.clients k (record cl { counters = count rc rc_ex cl.counters });
    accounts = elim (get_elem? s.accounts cl.account) [
      | none ↦ s.accounts
      | some c ↦ set s.accounts cl.account (count rc rc_ex c)
    ];
    total = count rc rc_ex s.total;
  }
]

-- The request as `send_dcw` has it where it counts it.
unfoldable pub checked : Request → Request
checked er =
    let rc =
      if er.rc == e_found || (er.rc == e_cache1 || er.rc == e_cache2) then check_cw er else er.rc in
    record er { rc = rc; rc_ex = if ltb rc e_notfound then 0 else er.rc_ex; caid = er.ocaid }

unfoldable pub send_dcw : ℕ → Request → Hub → Request × Hub
send_dcw k er s =
    let er1 = checked er in
    let s1 = send_reader_stat er1.selected_reader (record er1 { caid = er.caid }) er1.rc s in
    let s2 = count_all k er1.rc er1.rc_ex s1 in
    (er1, emit (dcw k (if er1.rc == e_fake then record er1 { rc = e_found } else er1)) s2)

-- `a == b` of two pointers.
abbrev pub same_pointer : Option ℕ → Option ℕ → Bool
same_pointer none none = true
same_pointer none (some y) = false
same_pointer (some x) none = false
same_pointer (some x) (some y) = x == y

-- The inner loop of `distribute_ecm`: how many tasks wait, the request with its last place, and
-- what is written to the client's pipe.
unfoldable pub distribute_tasks :
    ℕ → List Request → ℕ × Request × List Output → ℕ × Request × List Output
distribute_tasks k [] (n, er, out) = (n, er, out)
distribute_tasks k (t ∷ ts) (n, er, out) =
    let er1 = record er { cpti = t.cpti } in
    distribute_tasks k ts (
      if not (is_pending t)
      then (n, er, out)
      else if same_pointer t.ecmcacheptr er.ecmcacheptr
      then (suc n, er1, out ++ (piped k er1 ∷ []))
      else (suc n, er, out))

-- The outer loop, from the client `k` on.
unfoldable pub distribute_clients :
    ℕ → ℕ → List TaskClient → Request → List TaskClient × List Output
distribute_clients grp k [] er = ([], [])
distribute_clients grp k (cl ∷ cls) er =
    let skip = distribute_clients grp (suc k) cls er in
    elim cl.ecmtask [
      | none ↦ (cl ∷ skip.0, skip.1)
      | some tasks ↦
          let r = distribute_tasks k tasks (0, er, []) in
          let rest = distribute_clients grp (suc k) cls r.1 in
          if cl.pipe && (cl.typ_c && nonzero (bit_and cl.grp grp))
          then (record cl { pending = r.0 } ∷ rest.0, r.2 ++ rest.1)
          else (cl ∷ skip.0, skip.1)
    ]

unfoldable pub distribute_ecm : Request → ℕ → ℕ → Hub → Hub
distribute_ecm er grp rc s =
    let r = distribute_clients grp 0 s.clients (record er { rc = rc }) in
    record s { clients = r.0; output = s.output ++ r.1 }
