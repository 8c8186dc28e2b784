-- ===== src/Server/Tasks/Pending/Late.antt =====
-- About a task that has waited longer than the timeouts.
use oscam_vdr.Base.{
  ℕ, ◌+◌, ◌≤◌, ◌<◌, ◌≡◌, refl, ◌∙◌, false, none, some, List, [], ◌∷◌, leb, nonzero, if◌then◌else◌,
  Bool-cases, ◌⊎◌, inl, inr, arith,
}
use oscam_vdr.Server.{Request, e_99, e_timeout, cache_timeout}
use oscam_vdr.Server.Cache.{Cache, check_cwcache1, store_cw_in_cache}
use oscam_vdr.Server.Cache.Life.{looked, Live, Step-Keeps}
use oscam_vdr.Server.Cache.Pointers.{store_cw_in_cache_late, store_cw_in_cache-Live}
use oscam_vdr.Server.Tasks.{Hub, is_pending, send_reader_stat, requested, emit, checked, send_dcw}
use oscam_vdr.Server.Tasks.Answers.{task_at, put_task, answer_task}
use oscam_vdr.Server.Tasks.Charge.{task_at-put_task, task_at-send_dcw, checked-rc, low-pending}
use oscam_vdr.Server.Tasks.Pending.{Waits, is_asked, request_readers, timeout_stats}

-- The request's pointer is NULL, or to an entry that is there, of the request's time or later.
abbrev pub Points : Request → Cache → Type 0
Points er c = (er.ecmcacheptr ≡ none) ⊎ ((a : ℕ) × (er.ecmcacheptr ≡ some a) × Live a er.tps c)

-- How many late looks at a task that waits may leave it waiting.
abbrev pub looks_left : Request → ℕ
looks_left er = if nonzero er.stage then 0 else if er.locals_done then 1 else 2

-- The task was answered, or fewer looks are left.
abbrev pub GoesOn : ℕ → ℕ → Request → Hub → Type 0
GoesOn k i er d =
    (t : Request) × (task_at k i d ≡ some t)
    × ((is_pending t ≡ false) ⊎ (looks_left t < looks_left er))

pub store-look :
    (ctimeout now : ℕ) (er copy : Request) (grp its rc : ℕ) (c : Cache)
    → Points er c
    → er.tps ≤ now
    → copy.ecmcacheptr ≡ er.ecmcacheptr
    → copy.tps ≡ er.tps
    → (d : Cache) × (store_cw_in_cache now copy its rc (check_cwcache1 ctimeout now er grp c).0
        ≡ some d)
unfolding store_cw_in_cache
store-look ctimeout now er copy grp its rc c h l p q =
    let c1 = (check_cwcache1 ctimeout now er grp c).0 in
    elim (Bool-cases (leb (copy.tps + cache_timeout) now)) [
      | inl old ↦ (c1, store_cw_in_cache_late now copy its rc c1 old)
      | inr new ↦ elim h [
        | inl n ↦ let z = p ∙ n in rw (new, z, store_cw_in_cache) (c1, refl)
        | inr (a, e, live) ↦ store_cw_in_cache-Live now copy its rc a er.tps c1 (p ∙ e) (
            Step-Keeps (λ x. (x.address ≡ a) × (er.tps ≤ x.time)) now c c1
              (looked ctimeout now er grp c) (λ x k. ground arith) (λ r g t x low k. (k.0, l)) live)
      ]
    ]

pub answer_task-GoesOn :
    (k i : ℕ) (ert old er : Request) (s : Hub)
    → task_at k i s ≡ some old
    → ert.rc < e_99
    → GoesOn k i er (answer_task k i ert s).1
unfolding answer_task send_dcw
answer_task-GoesOn k i ert old er s h low =
    let s1 = put_task k i ert s in
    let at = task_at-send_dcw k i k ert s1 ∙ task_at-put_task k i ert old s h in
    let r = send_dcw k ert s1 in
    (
      checked ert,
      task_at-put_task k i (checked ert) ert r.1 at,
      inl (low-pending (checked ert) (checked-rc ert low)),
    )

pub request_readers-cache :
    (w : Waits) (types : ℕ) (er : Request) (rs : List ℕ) (s : Hub)
    → (request_readers w types er rs s).cache ≡ s.cache
unfolding request_readers
request_readers-cache w types er [] s = refl
request_readers-cache w types er (r ∷ rs) s = elim (Bool-cases (is_asked w types r)) [
  | inr e ↦ rw (e, request_readers) (request_readers-cache w types er rs s)
  | inl e ↦ rw (e, request_readers) (request_readers-cache w types er rs (emit (requested r er) s))
]

pub timeout_stats-cache :
    (rs : List ℕ) (er : Request) (s : Hub) → (timeout_stats rs er s).cache ≡ s.cache
unfolding timeout_stats send_reader_stat
timeout_stats-cache [] er s = refl
timeout_stats-cache (r ∷ rs) er s =
    timeout_stats-cache rs er (send_reader_stat (some r) er e_timeout s)
