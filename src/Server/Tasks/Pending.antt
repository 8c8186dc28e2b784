-- ===== src/Server/Tasks/Pending.antt =====
-- oscam.c, `request_cw` and `chk_pending`: what becomes of a task that waits. The time to wait,
-- which `chk_pending` returns, and the restart of a reader whose pipe fails are left out.
pub mod Late
pub mod Progress
pub mod Sums
pub mod Once
use oscam_vdr.Base.{
  ℕ, zero, suc, ◌+◌, ◌-◌, ◌*◌, ◌/◌, ◌%◌, ◌^◌, Bool, true, false, ◌&&◌, ◌||◌, not, Option, none,
  some, List, [], ◌∷◌, ◌==◌, leb, nonzero, if◌then◌else◌, get_elem?, set, u32, any, length,
}
use oscam_vdr.Convert.Clock.{Timeb, Sign, plus, comp_timeb}
use oscam_vdr.Server.{Request, e_cache2, e_timeout, e_99, e_unhandled}
use oscam_vdr.Server.Cache.{check_cwcache2, store_cw_in_cache}
use oscam_vdr.Server.Tasks.{
  TaskClient, Hub, requested, is_pending, emit, send_reader_stat, same_pointer, tasks_of,
}
use oscam_vdr.Server.Tasks.Answers.{task_at, put_task, answer_task}

-- The settings, which readers are of the network, and whether an active one is.
pub record Waits : Type 0 where
  pub ctimeout : ℕ
  pub ftimeout : ℕ
  pub preferlocalcards : Bool
  pub lb_mode : Bool
  pub network : ℕ → Bool
  pub any_network : Bool

-- The readers before the first fallback reader.
unfoldable pub primaries : Option ℕ → List ℕ → List ℕ
primaries fallback [] = []
primaries fallback (r ∷ rs) =
    let rest = primaries fallback rs in if same_pointer (some r) fallback then [] else r ∷ rest

-- Whether `request_cw` asks a reader: 1 for local ones only, 2 for those of the network.
abbrev pub is_asked : Waits → ℕ → ℕ → Bool
is_asked w reader_types r =
    (reader_types == 0)
    || (((reader_types == 1) && not (w.network r)) || ((reader_types == 2) && w.network r))

unfoldable pub request_readers : Waits → ℕ → Request → List ℕ → Hub → Hub
request_readers w reader_types er [] s = s
request_readers w reader_types er (r ∷ rs) s =
    request_readers w reader_types er rs
      (if is_asked w reader_types r then emit (requested r er) s else s)

abbrev pub request_cw : Waits → Request → ℕ → ℕ → Hub → Hub
request_cw w er flag reader_types =
    request_readers w reader_types er
      (if nonzero flag then er.matching_rdr else primaries er.fallback er.matching_rdr)

-- Whether a primary reader has still to answer, or to be asked.
abbrev pub holds : Waits → Request → Bool
holds w er =
    any
      (λ r.
        not w.preferlocalcards
        || ((w.preferlocalcards && (not er.locals_done && not (w.network r)))
            || (w.preferlocalcards && (er.locals_done && w.network r))))
      (primaries er.fallback er.matching_rdr)

-- `tpc.time += tt / 1000; tpc.millitm += tt % 1000;`
abbrev pub later : Timeb → ℕ → Timeb
later t tt = record { time = t.time + tt / 1000; millitm = t.millitm + tt % 1000 }

-- `a - b` in `uint32_t`.
abbrev pub minus32 : ℕ → ℕ → ℕ
minus32 a b = u32 (a + (2 ^ 32 - u32 b))

abbrev pub elapsed : Timeb → Request → ℕ
elapsed now er = minus32 (1000 * now.time + now.millitm) (1000 * er.tps + er.tps_millitm)

-- The stage 0 where no primary reader is left: the request, the time to compare with, and the
-- state. The task is written back by the caller.
unfoldable pub advance : Waits → Timeb → Timeb → Request → Hub → Request × Timeb × Hub
advance w now tpc er s =
    if nonzero er.stage || (not (leb e_unhandled er.rc) || holds w er)
    then (er, tpc, s)
    else if w.preferlocalcards && (not er.locals_done && w.any_network)
    then (let er1 = record er { locals_done = true } in
        (er1, later tpc (elapsed now er), request_cw w er1 er1.stage 2 s))
    else (let er1 = record er { locals_done = false; stage = suc er.stage } in
        (
          er1,
          later tpc (minus32 w.ctimeout w.ftimeout),
          request_cw w er1 er1.stage (if w.preferlocalcards then 1 else 0) s,
        ))

unfoldable pub timeout_stats : List ℕ → Request → Hub → Hub
timeout_stats [] er s = s
timeout_stats (r ∷ rs) er s = timeout_stats rs er (send_reader_stat (some r) er e_timeout s)

-- The end of a task that has waited too long.
unfoldable pub time_out : Waits → ℕ → ℕ → ℕ → ℕ → Request → Hub → Option Hub
time_out w grp now k i er s =
    let gone = record er { rc = e_timeout; rc_ex = 0 } in
    let s1 = if w.lb_mode then timeout_stats gone.matching_rdr gone s else s in
    elim (store_cw_in_cache now gone grp e_timeout s1.cache) [
      | none ↦ none
      | some cache ↦ some (answer_task k i gone (record s1 { cache = cache })).1
    ]

abbrev pub is_plus : Sign → Bool
is_plus plus = true
is_plus _ = false

-- What the loop of `chk_pending` does with a task that waits and has no answer in the cache.
unfoldable pub wait_on : Waits → ℕ → Timeb → ℕ → ℕ → Request → Hub → Option Hub
wait_on w grp now k i er s =
    let tpc =
      later (record { time = er.tps; millitm = er.tps_millitm })
        (if nonzero er.stage then w.ctimeout else w.ftimeout) in
    let a = advance w now tpc er s in
    if not (is_plus (comp_timeb now a.1))
    then some (put_task k i a.0 a.2)
    else if nonzero a.0.stage
    then time_out w grp now.time k i a.0 a.2
    else (let er1 = record a.0 { stage = suc a.0.stage } in
        some (
          put_task k i er1
            (if leb e_unhandled er1.rc then request_cw w er1 er1.stage 0 a.2 else a.2)))

-- What the loop does with a task.
unfoldable pub pending_task : Waits → ℕ → Timeb → ℕ → ℕ → Request → Hub → Option Hub
pending_task w grp now k i er s =
    if not (is_pending er)
    then some s
    else (let r = check_cwcache2 w.ctimeout now.time er grp s.cache in
        let s1 = record s { cache = r.0 } in
        if r.2
        then some (answer_task k i (record r.1 { rc = e_cache2 }) s1).1
        else wait_on w grp now k i er s1)

-- The loop, from the last task to the first, with the count of those that it found waiting.
unfoldable pub pending_loop : Waits → ℕ → Timeb → ℕ → ℕ → ℕ → Hub → Option (ℕ × Hub)
pending_loop w grp now k zero n s = some (n, s)
pending_loop w grp now k (suc i) n s = elim (task_at k i s) [
  | none ↦ none
  | some er ↦ elim (pending_task w grp now k i er s) [
    | none ↦ none
    | some s1 ↦ pending_loop w grp now k i (if is_pending er then suc n else n) s1
  ]
]

-- `cl->pending = pending;`
unfoldable pub set_pending : ℕ → ℕ → Hub → Hub
set_pending k n s = elim (get_elem? s.clients k) [
  | none ↦ s
  | some cl ↦ record s { clients = set s.clients k (record cl { pending = n }) }
]

-- `now` is the time at the start, and stands for the later calls of `time` as well.
unfoldable pub chk_pending : Waits → Timeb → ℕ → Hub → Option Hub
chk_pending w now k s = elim (get_elem? s.clients k) [
  | none ↦ none
  | some cl ↦ elim cl.ecmtask [
    | none ↦ some (set_pending k 0 s)
    | some tasks ↦ elim (pending_loop w cl.grp now k (length tasks) 0 s) [
      | none ↦ none
      | some r ↦ some (set_pending k r.0 r.1)
    ]
  ]
]
