-- ===== src/Server/Tasks/Once.antt =====
-- About how often a request is answered.
use oscam_vdr.Base.{
  ℕ, ◌+◌, ◌<◌, ◌≡◌, refl, ap, ◌∙◌, true, none, some, ltb, leb, if◌then◌else◌, get_elem?, Bool-cases,
  Option-cases, List-cases, inl, inr, arith,
}
use oscam_vdr.Server.{Request, e_99, e_found, e_cache2, e_notfound, e_rdr_found, e_rdr_notfound}
use oscam_vdr.Server.Tasks.{Hub, is_pending, send_reader_stat, distribute_ecm}
use oscam_vdr.Server.Cache.{store_cw_in_cache}
use oscam_vdr.Server.Tasks.Answers.{
  task_at, put_task, answer_task, finish, miss_last, miss, chk_task, chk_dcw, found_task,
  missed_task, is_obsolete,
}
use oscam_vdr.Server.Tasks.Charge.{
  owed, answers, charge, charge-send_reader_stat, charge-distribute_ecm, charge-answer_task,
  owed-put_task, put_task-output,
}

found_task-rc : (er ert : Request) → (found_task er ert).rc < e_99
found_task-rc er ert = ground arith

module _ (grp_of : ℕ → ℕ) where
  charge-finish :
      (j k : ℕ) (er ert old : Request) (s d : Hub)
      → task_at k er.cpti s ≡ some old
      → is_pending old ≡ true
      → ert.rc < e_99
      → finish grp_of k er ert s ≡ some d
      → charge j d ≡ charge j s
  unfolding finish
  charge-finish j k er ert old s d h p low f =
      let r = answer_task k er.cpti ert s in
      elim (Option-cases r.0.selected_reader) [
        | inl n ↦ absurd (let e = rw (n, finish) at f in cc)
        | inr (rdr, e) ↦
            let code = if ltb r.0.rc e_notfound then e_cache2 else r.0.rc in
            let g : some (distribute_ecm er (grp_of rdr) code r.1) ≡ some d = rw (e, finish) at f in
            let q : distribute_ecm er (grp_of rdr) code r.1 ≡ d = cc in
            rw (← q) (
              charge-distribute_ecm j er (grp_of rdr) code r.1
              ∙ charge-answer_task j k er.cpti ert old s h p low)
      ]

  charge-miss_last :
      (now j k : ℕ) (er gone old : Request) (s d : Hub)
      → task_at k er.cpti s ≡ some old
      → is_pending old ≡ true
      → gone.rc < e_99
      → miss_last grp_of now k er gone s ≡ some d
      → charge j d ≡ charge j s
  unfolding miss_last task_at
  charge-miss_last now j k er gone old s d h p low f = elim (Option-cases er.selected_reader) [
    | inl n ↦ absurd (let g = rw (n, miss_last) at f in cc)
    | inr (rdr, n) ↦
        elim (Option-cases (store_cw_in_cache now gone (grp_of rdr) e_notfound s.cache)) [
          | inl z ↦ absurd (let g = rw (n, z, miss_last) at f in cc)
          | inr (cache, z) ↦
              charge-finish j k er gone old (record s { cache = cache }) d h p low
                (rw (n, z, miss_last) at f)
        ]
  ]

  charge-miss :
      (now j k : ℕ) (er old : Request) (s d : Hub)
      → task_at k er.cpti s ≡ some old
      → is_pending old ≡ true
      → miss grp_of now k er old s ≡ some d
      → charge j d ≡ charge j s
  unfolding miss
  charge-miss now j k er old s d h p f =
      let t = missed_task er old in
      elim (List-cases t.matching_rdr) [
        | inr (x, xs, e) ↦
            let t1 = record t { selected_reader = none } in
            let g : some
                  (send_reader_stat er.selected_reader er e_notfound (put_task k er.cpti t1 s))
                ≡ some d =
              rw (e, miss) at f in
            let q : send_reader_stat er.selected_reader er e_notfound (put_task k er.cpti t1 s)
                ≡ d =
              cc in
            rw (← q) (
              omega (
                arith,
                charge-send_reader_stat j er.selected_reader er e_notfound
                    (put_task k er.cpti t1 s),
                owed-put_task j k er.cpti t1 old s h,
                ap (answers j) (put_task-output k er.cpti t1 s),
              ))
        | inl e ↦
            let g = rw (e, miss) at f in charge-miss_last now j k er _ old s d h p (omega arith) g
      ]

  -- An answer that comes for a client leaves for every client the sum of its waiting tasks and of
  -- the answers it was given: a task is answered once, at the moment it waits no more.
  pub charge-chk_dcw :
      (now j k : ℕ) (er : Request) (s d : Hub)
      → chk_dcw grp_of now k er s ≡ some d
      → owed j d + answers j d.output ≡ owed j s + answers j s.output
  unfolding chk_dcw chk_task task_at
  charge-chk_dcw now j k er s d f = elim (Option-cases (get_elem? s.clients k)) [
    | inl n ↦ let g : some s ≡ some d = rw (n, chk_dcw) at f in let q : d ≡ s = cc in rw q refl
    | inr (cl, c) ↦ elim (Option-cases cl.ecmtask) [
      | inl n ↦ let g : some s ≡ some d = rw (c, n, chk_dcw) at f in let q : d ≡ s = cc in rw q refl
      | inr (tasks, t) ↦ elim (Option-cases (get_elem? tasks er.cpti)) [
        | inl n ↦ absurd (let g = rw (c, t, n, chk_dcw) at f in cc)
        | inr (ert, o) ↦
            let h : task_at k er.cpti s ≡ some ert = rw (c, t, o, task_at) refl in
            elim (Bool-cases (ltb ert.rc e_99)) [
              | inl low ↦
                  let code = if leb er.rc e_rdr_notfound then e_notfound else e_found in
                  let g : some (send_reader_stat er.selected_reader er code s) ≡ some d =
                    rw (c, t, o, low, chk_dcw, chk_task) at f in
                  let q : d ≡ send_reader_stat er.selected_reader er code s = cc in
                  rw q (charge-send_reader_stat j er.selected_reader er code s)
              | inr high ↦
                  let p : is_pending ert ≡ true = ground arith in
                  elim (Bool-cases (is_obsolete er ert)) [
                    | inl b ↦
                        let g : some s ≡ some d = rw (c, t, o, high, b, chk_dcw, chk_task) at f in
                        let q : d ≡ s = cc in rw q refl
                    | inr b ↦ elim (Bool-cases (leb e_rdr_found er.rc)) [
                      | inl y ↦
                          charge-finish j k er (found_task er ert) ert s d h p
                            (found_task-rc er ert)
                            (rw (c, t, o, high, b, y, chk_dcw, chk_task) at f)
                      | inr y ↦
                          charge-miss now j k er ert s d h p
                            (rw (c, t, o, high, b, y, chk_dcw, chk_task) at f)
                    ]
                  ]
            ]
      ]
    ]
  ]
