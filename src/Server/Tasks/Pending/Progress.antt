-- ===== src/Server/Tasks/Pending/Progress.antt =====
-- About the end of a task that waits longer than the timeouts.
use oscam_vdr.Base.{
  ℕ, suc, ◌+◌, ◌/◌, ◌≤◌, ◌<◌, ◌≡◌, refl, ◌∙◌, Bool, true, false, not, some, ◌&&◌, ◌||◌, leb,
  nonzero, if◌then◌else◌, Bool-cases, ◌⊎◌, inl, inr, arith,
}
use oscam_vdr.Convert.Clock.{Timeb, comp_timeb}
use oscam_vdr.Server.{Request, e_cache2, e_timeout, e_unhandled}
use oscam_vdr.Server.Cache.{Cache, check_cwcache2, store_cw_in_cache}
use oscam_vdr.Server.Tasks.{Hub, is_pending}
use oscam_vdr.Server.Tasks.Answers.{task_at, put_task, answer_task}
use oscam_vdr.Server.Tasks.Charge.{task_at-put_task}
use oscam_vdr.Server.Tasks.Pending.{
  Waits, holds, request_cw, later, advance, timeout_stats, time_out, is_plus, wait_on, pending_task,
}
use oscam_vdr.Server.Tasks.Pending.Sums.{
  Alike-task_at, request_readers-Alike, timeout_stats-Alike, advance-Alike,
}
use oscam_vdr.Server.Tasks.Pending.Late.{
  Points, looks_left, GoesOn, store-look, answer_task-GoesOn, request_readers-cache,
  timeout_stats-cache,
}

or_none : (a b : Bool) → (a || b) ≡ false → a ≡ false
or_none true b h = h
or_none false b h = refl

some_look : (b : Bool) → 0 < (if b then 1 else 2)
some_look true = omega arith
some_look false = omega arith

looks_less :
    (a b : Request)
    → nonzero b.stage ≡ false
    → looks_left (record a { stage = suc a.stage }) < looks_left b
looks_less a b z =
    let n : nonzero (suc a.stage) ≡ true = ground arith in rw (z, n) (some_look b.locals_done)

-- `advance` leaves the request and the time to compare with, or uses up a look.
advance-cases :
    (w : Waits) (now tpc : Timeb) (er : Request) (s : Hub)
    → (((advance w now tpc er s).0 ≡ er) × ((advance w now tpc er s).1 ≡ tpc))
      ⊎ (looks_left (advance w now tpc er s).0 < looks_left er)
unfolding advance
advance-cases w now tpc er s =
    elim (Bool-cases (nonzero er.stage || (not (leb e_unhandled er.rc) || holds w er))) [
      | inl e ↦ rw (e, advance) (inl (refl, refl))
      | inr e ↦ elim (Bool-cases (w.preferlocalcards && (not er.locals_done && w.any_network))) [
        | inl b ↦
            let z : nonzero er.stage ≡ false = or_none _ _ e in
            let l : er.locals_done ≡ false = ground arith in
            rw (e, b, advance) (inr (rw (z, l) (omega arith)))
        | inr b ↦
            let z : nonzero er.stage ≡ false = or_none _ _ e in
            let n : nonzero (suc er.stage) ≡ true = ground arith in
            rw (e, b, advance) (inr (rw (z, n) (some_look er.locals_done)))
      ]
    ]

-- What `advance` keeps.
advance-keeps :
    (w : Waits) (now tpc : Timeb) (er : Request) (s : Hub)
    → ((advance w now tpc er s).0.ecmcacheptr ≡ er.ecmcacheptr)
      × ((advance w now tpc er s).0.tps ≡ er.tps)
      × (er.stage ≤ (advance w now tpc er s).0.stage)
      × ((advance w now tpc er s).2.cache ≡ s.cache)
unfolding advance
advance-keeps w now tpc er s =
    elim (Bool-cases (nonzero er.stage || (not (leb e_unhandled er.rc) || holds w er))) [
      | inl e ↦ rw (e, advance) (refl, refl, omega arith, refl)
      | inr e ↦ elim (Bool-cases (w.preferlocalcards && (not er.locals_done && w.any_network))) [
        | inl b ↦ rw (e, b, advance) (refl, refl, omega arith, request_readers-cache w _ _ _ s)
        | inr b ↦ rw (e, b, advance) (refl, refl, omega arith, request_readers-cache w _ _ _ s)
      ]
    ]

is_plus-comp_timeb : (a b : Timeb) → b.time < a.time → is_plus (comp_timeb a b) ≡ true
unfolding comp_timeb
is_plus-comp_timeb a b h = ground arith

abbrev gone_of : Request → Request
gone_of er = record er { rc = e_timeout; rc_ex = 0 }

time_out-GoesOn :
    (w : Waits) (grp now k i : ℕ) (er old : Request) (s : Hub)
    → task_at k i s ≡ some old
    → (base : Cache) → s.cache ≡ base
    → ((c : Cache) × (store_cw_in_cache now (gone_of er) grp e_timeout base ≡ some c))
    → (d : Hub) × (time_out w grp now k i er s ≡ some d) × GoesOn k i old d
unfolding time_out task_at
time_out-GoesOn w grp now k i er old s h base b (c, e) =
    let gone = gone_of er in
    let s1 = if w.lb_mode then timeout_stats gone.matching_rdr gone s else s in
    let same : s1.cache ≡ s.cache = elim (Bool-cases w.lb_mode) [
      | inl b ↦ rw b (timeout_stats-cache gone.matching_rdr gone s)
      | inr b ↦ rw b refl
    ] in
    let at : task_at k i s1 ≡ some old = elim (Bool-cases w.lb_mode) [
      | inl b ↦ rw b (
          Alike-task_at 0 k i s (timeout_stats gone.matching_rdr gone s)
            (timeout_stats-Alike gone.matching_rdr gone 0 s)
          ∙ h)
      | inr b ↦ rw b h
    ] in
    let same_base : s1.cache ≡ base = same ∙ b in
    rw (same_base, e, time_out)
      (_, refl, answer_task-GoesOn k i gone old old (record s1 { cache = c }) at (omega arith))

wait_on-GoesOn :
    (w : Waits) (grp : ℕ) (now : Timeb) (k i : ℕ) (er : Request) (s : Hub)
    → task_at k i s ≡ some er
    → ((copy : Request)
        → copy.ecmcacheptr ≡ er.ecmcacheptr
        → copy.tps ≡ er.tps
        → (c : Cache) × (store_cw_in_cache now.time copy grp e_timeout s.cache ≡ some c))
    → er.tps + w.ctimeout / 1000 < now.time
    → er.tps + w.ftimeout / 1000 < now.time
    → (d : Hub) × (wait_on w grp now k i er s ≡ some d) × GoesOn k i er d
unfolding wait_on time_out task_at
wait_on-GoesOn w grp now k i er s h stores lc lf =
    let tpc =
      later (record { time = er.tps; millitm = er.tps_millitm })
        (if nonzero er.stage then w.ctimeout else w.ftimeout) in
    let late : tpc.time < now.time = ground arith in
    let a = advance w now tpc er s in
    let at = Alike-task_at 0 k i s a.2 (advance-Alike w now tpc er 0 s) ∙ h in
    let (ptr, tps, stage, cache) = advance-keeps w now tpc er s in
    elim (Bool-cases (is_plus (comp_timeb now a.1))) [
      | inr n ↦ elim (advance-cases w now tpc er s) [
        | inl same ↦ absurd (
            let y : is_plus (comp_timeb now a.1) ≡ true =
              rw (same.1) (is_plus-comp_timeb now tpc late) in
            cc)
        | inr less ↦
            rw (n, wait_on)
              (put_task k i a.0 a.2, refl, (a.0, task_at-put_task k i a.0 er a.2 at, inr less))
      ]
      | inl y ↦ elim (Bool-cases (nonzero a.0.stage)) [
        | inl z ↦
            rw (y, z, wait_on)
              (time_out-GoesOn w grp now.time k i a.0 er a.2 at s.cache cache
                (stores (gone_of a.0) ptr tps))
        | inr z ↦
            let er1 = record a.0 { stage = suc a.0.stage } in
            let s1 = if leb e_unhandled er1.rc then request_cw w er1 er1.stage 0 a.2 else a.2 in
            let at1 : task_at k i s1 ≡ some er = elim (Bool-cases (leb e_unhandled er1.rc)) [
              | inl b ↦ rw b (
                  Alike-task_at 0 k i a.2 (request_cw w er1 er1.stage 0 a.2)
                    (request_readers-Alike w 0 er1 0 _ a.2)
                  ∙ at)
              | inr b ↦ rw b at
            ] in
            let first : nonzero er.stage ≡ false = ground arith in
            rw (y, z, wait_on)
              (
                put_task k i er1 s1,
                refl,
                (er1, task_at-put_task k i er1 er s1 at1, inr (looks_less a.0 er first)),
              )
      ]
    ]

-- A task that waits, whose time is more than both timeouts ago, is looked at to the end: it is
-- answered, or it has fewer looks left, of which it has two at the start. So at the third look it
-- is answered. Its pointer into the cache is NULL, or to an entry of its time or later.
pub pending_task-GoesOn :
    (w : Waits) (grp : ℕ) (now : Timeb) (k i : ℕ) (er : Request) (s : Hub)
    → task_at k i s ≡ some er
    → is_pending er ≡ true
    → Points er s.cache
    → er.tps + w.ctimeout / 1000 < now.time
    → er.tps + w.ftimeout / 1000 < now.time
    → (d : Hub) × (pending_task w grp now k i er s ≡ some d) × GoesOn k i er d
unfolding pending_task task_at
pending_task-GoesOn w grp now k i er s h p points lc lf =
    let r = check_cwcache2 w.ctimeout now.time er grp s.cache in
    let s1 = record s { cache = r.0 } in
    elim (Bool-cases r.2) [
      | inl y ↦
          let t = record r.1 { rc = e_cache2 } in
          rw (p, y, pending_task)
            ((answer_task k i t s1).1, refl, answer_task-GoesOn k i t er er s1 h (omega arith))
      | inr n ↦
          rw (p, n, pending_task)
            (wait_on-GoesOn w grp now k i er s1 h
              (λ copy a b.
                store-look w.ctimeout now.time er copy grp grp e_timeout s.cache points
                  (omega arith) a b)
              lc lf)
    ]
