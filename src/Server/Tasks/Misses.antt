-- ===== src/Server/Tasks/Misses.antt =====
-- About a task whose readers find nothing, one after the other.
use oscam_vdr.Base.{
  ℕ, ◌+◌, ◌<◌, ◌≡◌, ◌≢◌, refl, sym, ap, ◌∙◌, true, false, Option, none, some, List, [], ltb, leb,
  if◌then◌else◌, get_elem?, Bool-cases, Option-cases, List-cases, ◌⊎◌, inl, inr, arith,
}
use oscam_vdr.Server.{
  Request, cache_timeout, e_cache2, e_99, e_notfound, e_rdr_notfound, e_rdr_found,
}
use oscam_vdr.Server.Cache.{Cache, same_bytes, store_cw_in_cache}
use oscam_vdr.Server.Cache.Scan.{same_bytes_refl}
use oscam_vdr.Server.Tasks.{Hub, is_pending, checked, send_dcw, send_reader_stat, distribute_ecm}
use oscam_vdr.Server.Tasks.Views.{task_at-views, tasks_at, distribute_clients-views}
use oscam_vdr.Server.Tasks.Charge.{
  task_at-put_task, task_at-send_dcw, send_reader_stat-views, checked-rc, low-pending,
}
use oscam_vdr.Server.Cache.Pointers.{store_cw_in_cache_late, store_cw_in_cache-Live}
use oscam_vdr.Server.Tasks.Pending.Late.{Points}
use oscam_vdr.Server.Tasks.Answers.{
  remove_reader, task_at, put_task, is_obsolete, missed_task, answer_task, finish, miss_last, miss,
  chk_task, chk_dcw,
}

-- The answer "not found" of a reader for a task.
pub record Misses (r : ℕ) (t q : Request) : Type 0 where
  pub reader : q.selected_reader ≡ some r
  pub rc : q.rc ≡ e_rdr_notfound
  pub caid : q.caid ≡ t.caid
  pub ecmd5 : q.ecmd5 ≡ t.ecmd5

store-Points :
    (now : ℕ) (er copy : Request) (its rc : ℕ) (c : Cache)
    → Points er c
    → copy.ecmcacheptr ≡ er.ecmcacheptr
    → (d : Cache) × (store_cw_in_cache now copy its rc c ≡ some d)
unfolding store_cw_in_cache
store-Points now er copy its rc c h p = elim h [
  | inl n ↦
      let z = p ∙ n in
      elim (Bool-cases (leb (copy.tps + cache_timeout) now)) [
        | inl old ↦ (c, store_cw_in_cache_late now copy its rc c old)
        | inr new ↦ rw (new, z, store_cw_in_cache) (c, refl)
      ]
  | inr (a, e, live) ↦ store_cw_in_cache-Live now copy its rc a er.tps c (p ∙ e) live
]

pub task_at-send_reader_stat :
    (k i : ℕ) (rdr : Option ℕ) (er : Request) (rc : ℕ) (s : Hub)
    → task_at k i (send_reader_stat rdr er rc s) ≡ task_at k i s
task_at-send_reader_stat k i rdr er rc s =
    task_at-views k i (send_reader_stat rdr er rc s)
    ∙ ap (λ v. tasks_at v k i) (send_reader_stat-views rdr er rc s)
    ∙ sym (task_at-views k i s)

send_reader_stat-cache :
    (rdr : Option ℕ) (er : Request) (rc : ℕ) (s : Hub)
    → (send_reader_stat rdr er rc s).cache ≡ s.cache
unfolding send_reader_stat
send_reader_stat-cache rdr er rc s = elim (Bool-cases (leb e_99 rc)) [
  | inl e ↦ rw (e, send_reader_stat) refl
  | inr e ↦ rw (e, send_reader_stat) refl
]

put_task-cache : (k i : ℕ) (t : Request) (s : Hub) → (put_task k i t s).cache ≡ s.cache
unfolding put_task
put_task-cache k i t s = elim (Option-cases (get_elem? s.clients k)) [
  | inl n ↦ rw (n, put_task) refl
  | inr (cl, g) ↦ elim (Option-cases cl.ecmtask) [
    | inl n ↦ rw (g, n, put_task) refl
    | inr (tasks, e) ↦ rw (g, e, put_task) refl
  ]
]

module _ (grp_of : ℕ → ℕ) where
  finish-Ends :
      (k : ℕ) (er ert old : Request) (s : Hub) (r : ℕ)
      → task_at k er.cpti s ≡ some old
      → ert.rc < e_99
      → ert.selected_reader ≡ some r
      → (d : Hub) × (finish grp_of k er ert s ≡ some d)
        × ((u : Request) × (task_at k er.cpti d ≡ some u) × (is_pending u ≡ false))
  unfolding finish answer_task send_dcw checked distribute_ecm
  finish-Ends k er ert old s r h low sel =
      let s1 = put_task k er.cpti ert s in
      let b = send_dcw k ert s1 in
      let at = task_at-send_dcw k er.cpti k ert s1 ∙ task_at-put_task k er.cpti ert old s h in
      let s3 = put_task k er.cpti b.0 b.1 in
      let code = if ltb b.0.rc e_notfound then e_cache2 else b.0.rc in
      let d = distribute_ecm er (grp_of r) code s3 in
      (
        d,
        rw sel refl,
        (
          b.0,
          task_at-views k er.cpti d
              ∙ ap (λ v. tasks_at v k er.cpti)
                  (distribute_clients-views (grp_of r) 0 s3.clients (record er { rc = code }))
              ∙ sym (task_at-views k er.cpti s3)
              ∙ task_at-put_task k er.cpti b.0 ert b.1 at,
          low-pending b.0 (checked-rc ert low),
        ),
      )

  pub chk_dcw-task_at :
      (now k : ℕ) (er ert : Request) (s : Hub)
      → task_at k er.cpti s ≡ some ert
      → chk_dcw grp_of now k er s ≡ chk_task grp_of now k er ert s
  unfolding chk_dcw task_at
  chk_dcw-task_at now k er ert s h = elim (Option-cases (get_elem? s.clients k)) [
    | inl n ↦ absurd (let e = rw (n, task_at) at h in cc)
    | inr (cl, c) ↦ elim (Option-cases cl.ecmtask) [
      | inl n ↦ absurd (let e = rw (c, n, task_at) at h in cc)
      | inr (tasks, t) ↦
          let o : get_elem? tasks er.cpti ≡ some ert = rw (c, t, task_at) at h in
          rw (c, t, o, chk_dcw) refl
    ]
  ]

  -- What a task is like that other readers are left for.
  pub record IsLeft (r : ℕ) (t u : Request) (s d : Hub) : Type 0 where
    pub readers : u.matching_rdr ≡ remove_reader (some r) t.matching_rdr
    pub some_left : u.matching_rdr ≢ []
    pub rc : u.rc ≡ t.rc
    pub pointer : u.ecmcacheptr ≡ t.ecmcacheptr
    pub time : u.tps ≡ t.tps
    pub caid : u.caid ≡ t.caid
    pub ecmd5 : u.ecmd5 ≡ t.ecmd5
    pub cache : d.cache ≡ s.cache

  miss-miss_last :
      (now k : ℕ) (q t : Request) (s : Hub)
      → (missed_task q t).matching_rdr ≡ []
      → miss grp_of now k q t s
        ≡ miss_last grp_of now k q (record (missed_task q t) { rc = e_notfound }) s
  unfolding miss
  miss-miss_last now k q t s e =
      rw (e, miss)
        (ap
          (λ (m : List ℕ).
            miss_last grp_of now k q
              (record (missed_task q t) { rc = e_notfound; matching_rdr = m }) s)
          e)

  miss_last-Ends :
      (now k r : ℕ) (q gone t : Request) (s : Hub)
      → task_at k q.cpti s ≡ some t
      → Points t s.cache
      → q.selected_reader ≡ some r
      → gone.selected_reader ≡ some r
      → gone.ecmcacheptr ≡ t.ecmcacheptr
      → gone.rc < e_99
      → (d : Hub) × (miss_last grp_of now k q gone s ≡ some d)
        × ((u : Request) × (task_at k q.cpti d ≡ some u) × (is_pending u ≡ false))
  unfolding miss_last task_at
  miss_last-Ends now k r q gone t s h points sel mine ptr low =
      let (c, e) = store-Points now t gone (grp_of r) e_notfound s.cache points ptr in
      rw (sel, e, miss_last) (finish-Ends k q gone t (record s { cache = c }) r h low mine)

  -- The answer "not found" for a task that waits: the task ends if no other reader is left for it,
  -- and else it waits on with one reader less.
  pub chk_dcw-Misses :
      (now k r : ℕ) (t q : Request) (s : Hub)
      → task_at k q.cpti s ≡ some t
      → is_pending t ≡ true
      → Points t s.cache
      → Misses r t q
      → (d : Hub) × (chk_dcw grp_of now k q s ≡ some d)
        × ((u : Request) × (task_at k q.cpti d ≡ some u)
            × ((is_pending u ≡ false) ⊎ IsLeft r t u s d))
  unfolding chk_task miss
  chk_dcw-Misses now k r t q s h p points m =
      let high : ltb t.rc e_99 ≡ false = ground arith in
      let same : same_bytes q.ecmd5 t.ecmd5 ≡ true = rw (m.ecmd5) (same_bytes_refl t.ecmd5) in
      let current : is_obsolete q t ≡ false = ground (arith, m.caid) in
      let missed : leb e_rdr_found q.rc ≡ false = ground (arith, m.rc) in
      let u = missed_task q t in
      let open_up = chk_dcw-task_at now k q t s h in
      elim (List-cases u.matching_rdr) [
        | inr (x, xs, e) ↦
            let u1 = record u { selected_reader = none } in
            let s1 = put_task k q.cpti u1 s in
            let at =
              task_at-send_reader_stat k q.cpti q.selected_reader q e_notfound s1
              ∙ task_at-put_task k q.cpti u1 t s h in
            let left : IsLeft r t u1 s (send_reader_stat q.selected_reader q e_notfound s1) =
              record {
                readers = rw (m.reader) refl;
                some_left = λ z. cc;
                rc = refl;
                pointer = refl;
                time = refl;
                caid = refl;
                ecmd5 = refl;
                cache =
                    send_reader_stat-cache q.selected_reader q e_notfound s1
                    ∙ put_task-cache k q.cpti u1 s;
              } in
            rw (open_up, high, current, missed, e, chk_task, miss)
              (send_reader_stat q.selected_reader q e_notfound s1, refl, (u1, at, inr left))
        | inl e ↦
            let gone = record u { rc = e_notfound } in
            let (d, f, (w, at, low)) =
              miss_last-Ends now k r q gone t s h points (m.reader) (m.reader) refl (omega arith) in
            (
              d,
              open_up ∙ (rw (high, current, missed, chk_task) (miss-miss_last now k q t s e)) ∙ f,
              (w, at, inl low),
            )
      ]
