-- ===== src/Server/Tasks/Pending/Sums.antt =====
-- About what `chk_pending` owes to the clients, and what it answers.
use oscam_vdr.Base.{
  ℕ, suc, ◌≡◌, refl, sym, ap, ◌∙◌, true, not, Option, some, List, [], ◌∷◌, ◌&&◌, ◌||◌, leb, nonzero,
  if◌then◌else◌, get_elem?, Bool-cases, Option-cases, inl, inr, arith,
}
use oscam_vdr.Convert.Clock.{Timeb, comp_timeb}
use oscam_vdr.Server.{Request, e_timeout, e_unhandled}
use oscam_vdr.Server.Cache.{store_cw_in_cache}
use oscam_vdr.Server.Tasks.{Hub, requested, is_pending, emit, send_reader_stat}
use oscam_vdr.Server.Tasks.Views.{views, task_at-views, tasks_at}
use oscam_vdr.Server.Tasks.Answers.{task_at, put_task, answer_task}
use oscam_vdr.Server.Tasks.Charge.{
  answers, answers-append, held, charge, charge-send_reader_stat, charge-answer_task, owed-put_task,
  put_task-output, send_reader_stat-views,
}
use oscam_vdr.Server.Tasks.Pending.{
  Waits, is_asked, holds, request_readers, request_cw, later, advance, timeout_stats, time_out,
  is_plus, wait_on,
}

-- Two states with the same tasks, and the same answers to the client.
abbrev pub Alike : ℕ → Hub → Hub → Type 0
Alike j s d = (views d.clients ≡ views s.clients) × (answers j d.output ≡ answers j s.output)

pub Alike-charge : (j : ℕ) (s d : Hub) → Alike j s d → charge j d ≡ charge j s
Alike-charge j s d a = omega (arith, ap (λ v. held (get_elem? v j)) a.0, a.1)

pub Alike-task_at : (j k i : ℕ) (s d : Hub) → Alike j s d → task_at k i d ≡ task_at k i s
Alike-task_at j k i s d a =
    task_at-views k i d ∙ ap (λ v. tasks_at v k i) a.0 ∙ sym (task_at-views k i s)

pub request_readers-Alike :
    (w : Waits) (types : ℕ) (er : Request) (j : ℕ) (rs : List ℕ) (s : Hub)
    → Alike j s (request_readers w types er rs s)
unfolding request_readers
request_readers-Alike w types er j [] s = (refl, refl)
request_readers-Alike w types er j (r ∷ rs) s = elim (Bool-cases (is_asked w types r)) [
  | inr e ↦ rw (e, request_readers) (request_readers-Alike w types er j rs s)
  | inl e ↦
      let s1 = emit (requested r er) s in
      let a = request_readers-Alike w types er j rs s1 in
      rw (e, request_readers)
        (a.0, a.1 ∙ answers-append j s.output (requested r er ∷ []) ∙ omega arith)
]

send_reader_stat-Alike :
    (rdr : Option ℕ) (er : Request) (rc j : ℕ) (s : Hub) → Alike j s (send_reader_stat rdr er rc s)
send_reader_stat-Alike rdr er rc j s =
    let v = send_reader_stat-views rdr er rc s in
    (v, omega (arith, charge-send_reader_stat j rdr er rc s, ap (λ v. held (get_elem? v j)) v))

pub timeout_stats-Alike :
    (rs : List ℕ) (er : Request) (j : ℕ) (s : Hub) → Alike j s (timeout_stats rs er s)
unfolding timeout_stats
timeout_stats-Alike [] er j s = (refl, refl)
timeout_stats-Alike (r ∷ rs) er j s =
    let a = send_reader_stat-Alike (some r) er e_timeout j s in
    let b = timeout_stats-Alike rs er j (send_reader_stat (some r) er e_timeout s) in
    (b.0 ∙ a.0, b.1 ∙ a.1)

pub advance-Alike :
    (w : Waits) (now tpc : Timeb) (er : Request) (j : ℕ) (s : Hub)
    → Alike j s (advance w now tpc er s).2
unfolding advance
advance-Alike w now tpc er j s =
    elim (Bool-cases (nonzero er.stage || (not (leb e_unhandled er.rc) || holds w er))) [
      | inl e ↦ rw (e, advance) (refl, refl)
      | inr e ↦ elim (Bool-cases (w.preferlocalcards && (not er.locals_done && w.any_network))) [
        | inl b ↦ rw (e, b, advance) (request_readers-Alike w _ _ j _ s)
        | inr b ↦ rw (e, b, advance) (request_readers-Alike w _ _ j _ s)
      ]
    ]

advance-rc :
    (w : Waits) (now tpc : Timeb) (er : Request) (s : Hub) → (advance w now tpc er s).0.rc ≡ er.rc
unfolding advance
advance-rc w now tpc er s =
    elim (Bool-cases (nonzero er.stage || (not (leb e_unhandled er.rc) || holds w er))) [
      | inl e ↦ rw (e, advance) refl
      | inr e ↦ elim (Bool-cases (w.preferlocalcards && (not er.locals_done && w.any_network))) [
        | inl b ↦ rw (e, b, advance) refl
        | inr b ↦ rw (e, b, advance) refl
      ]
    ]

-- A task that goes on waiting.
charge-put_task :
    (j k i : ℕ) (t old : Request) (s : Hub)
    → task_at k i s ≡ some old
    → t.rc ≡ old.rc
    → charge j (put_task k i t s) ≡ charge j s
charge-put_task j k i t old s h e =
    let same : is_pending t ≡ is_pending old = rw e refl in
    let sum = owed-put_task j k i t old s h in
    omega (arith, rw same at sum, ap (answers j) (put_task-output k i t s))

charge-time_out :
    (w : Waits) (grp now j k i : ℕ) (er old : Request) (s d : Hub)
    → task_at k i s ≡ some old
    → is_pending old ≡ true
    → time_out w grp now k i er s ≡ some d
    → charge j d ≡ charge j s
unfolding time_out task_at
charge-time_out w grp now j k i er old s d h p f =
    let gone = record er { rc = e_timeout; rc_ex = 0 } in
    let s1 = if w.lb_mode then timeout_stats gone.matching_rdr gone s else s in
    let a : Alike j s s1 = elim (Bool-cases w.lb_mode) [
      | inl b ↦ rw b (timeout_stats-Alike gone.matching_rdr gone j s)
      | inr b ↦ rw b (refl, refl)
    ] in
    elim (Option-cases (store_cw_in_cache now gone grp e_timeout s1.cache)) [
      | inl z ↦ absurd (let g = rw (z, time_out) at f in cc)
      | inr (cache, z) ↦
          let s2 = record s1 { cache = cache } in
          let g : some (answer_task k i gone s2).1 ≡ some d = rw (z, time_out) at f in
          let q : (answer_task k i gone s2).1 ≡ d = cc in
          rw (← q) (
            charge-answer_task j k i gone old s2 (Alike-task_at j k i s s1 a ∙ h) p (omega arith)
            ∙ Alike-charge j s s1 a)
    ]

pub charge-wait_on :
    (w : Waits) (grp : ℕ) (now : Timeb) (j k i : ℕ) (er old : Request) (s d : Hub)
    → task_at k i s ≡ some old
    → is_pending old ≡ true
    → er.rc ≡ old.rc
    → wait_on w grp now k i er s ≡ some d
    → charge j d ≡ charge j s
unfolding wait_on
charge-wait_on w grp now j k i er old s d h p e f =
    let tpc =
      later (record { time = er.tps; millitm = er.tps_millitm })
        (if nonzero er.stage then w.ctimeout else w.ftimeout) in
    let a = advance w now tpc er s in
    let al = advance-Alike w now tpc er j s in
    let at = Alike-task_at j k i s a.2 al ∙ h in
    let rc = advance-rc w now tpc er s ∙ e in
    elim (Bool-cases (is_plus (comp_timeb now a.1))) [
      | inr n ↦
          let g : some (put_task k i a.0 a.2) ≡ some d = rw (n, wait_on) at f in
          let q : put_task k i a.0 a.2 ≡ d = cc in
          rw (← q) (charge-put_task j k i a.0 old a.2 at rc ∙ Alike-charge j s a.2 al)
      | inl y ↦ elim (Bool-cases (nonzero a.0.stage)) [
        | inl z ↦
            charge-time_out w grp now.time j k i a.0 old a.2 d at p (rw (y, z, wait_on) at f)
            ∙ Alike-charge j s a.2 al
        | inr z ↦
            let er1 = record a.0 { stage = suc a.0.stage } in
            let s1 = if leb e_unhandled er1.rc then request_cw w er1 er1.stage 0 a.2 else a.2 in
            let a1 : Alike j a.2 s1 = elim (Bool-cases (leb e_unhandled er1.rc)) [
              | inl b ↦ rw b (request_readers-Alike w 0 er1 j _ a.2)
              | inr b ↦ rw b (refl, refl)
            ] in
            let g : some (put_task k i er1 s1) ≡ some d = rw (y, z, wait_on) at f in
            let q : put_task k i er1 s1 ≡ d = cc in
            rw (← q) (
              charge-put_task j k i er1 old s1 (Alike-task_at j k i a.2 s1 a1 ∙ at) rc
              ∙ Alike-charge j a.2 s1 a1
              ∙ Alike-charge j s a.2 al)
      ]
    ]
