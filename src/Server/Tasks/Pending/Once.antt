-- ===== src/Server/Tasks/Pending/Once.antt =====
-- About how often `chk_pending` answers a request.
use oscam_vdr.Base.{
  ℕ, zero, suc, ◌+◌, ◌≡◌, refl, ap, ◌∙◌, some, if◌then◌else◌, get_elem?, Bool-cases, Option-cases,
  inl, inr, arith, length,
}
use oscam_vdr.Convert.Clock.{Timeb}
use oscam_vdr.Server.{Request, e_cache2}
use oscam_vdr.Server.Cache.{check_cwcache2}
use oscam_vdr.Server.Tasks.{Hub, is_pending}
use oscam_vdr.Server.Tasks.Views.{views-set}
use oscam_vdr.Server.Tasks.Answers.{task_at, answer_task}
use oscam_vdr.Server.Tasks.Charge.{owed, answers, held, charge, charge-answer_task}
use oscam_vdr.Server.Tasks.Pending.{Waits, pending_task, pending_loop, set_pending, chk_pending}
use oscam_vdr.Server.Tasks.Pending.Sums.{charge-wait_on}

charge-pending_task :
    (w : Waits) (grp : ℕ) (now : Timeb) (j k i : ℕ) (er : Request) (s d : Hub)
    → task_at k i s ≡ some er
    → pending_task w grp now k i er s ≡ some d
    → charge j d ≡ charge j s
unfolding pending_task task_at
charge-pending_task w grp now j k i er s d h f = elim (Bool-cases (is_pending er)) [
  | inr n ↦ let g : some s ≡ some d = rw (n, pending_task) at f in let q : d ≡ s = cc in rw q refl
  | inl p ↦
      let r = check_cwcache2 w.ctimeout now.time er grp s.cache in
      let s1 = record s { cache = r.0 } in
      elim (Bool-cases r.2) [
        | inl y ↦
            let t = record r.1 { rc = e_cache2 } in
            let g : some (answer_task k i t s1).1 ≡ some d = rw (p, y, pending_task) at f in
            let q : (answer_task k i t s1).1 ≡ d = cc in
            rw (← q) (charge-answer_task j k i t er s1 h p (omega arith))
        | inr n ↦ charge-wait_on w grp now j k i er er s1 d h p refl (rw (p, n, pending_task) at f)
      ]
]

charge-pending_loop :
    (w : Waits) (grp : ℕ) (now : Timeb) (j k i n : ℕ) (s : Hub) (r : ℕ × Hub)
    → pending_loop w grp now k i n s ≡ some r
    → charge j r.1 ≡ charge j s
unfolding pending_loop
charge-pending_loop w grp now j k zero n s r f = let q : r ≡ (n, s) = cc in rw q refl
charge-pending_loop w grp now j k (suc i) n s r f = elim (Option-cases (task_at k i s)) [
  | inl z ↦ absurd (let g = rw (z, pending_loop) at f in cc)
  | inr (er, h) ↦ elim (Option-cases (pending_task w grp now k i er s)) [
    | inl z ↦ absurd (let g = rw (h, z, pending_loop) at f in cc)
    | inr (s1, p) ↦
        charge-pending_loop w grp now j k i (if is_pending er then suc n else n) s1 r
          (rw (h, p, pending_loop) at f)
        ∙ charge-pending_task w grp now j k i er s s1 h p
  ]
]

charge-set_pending : (j k n : ℕ) (s : Hub) → charge j (set_pending k n s) ≡ charge j s
unfolding set_pending
charge-set_pending j k n s = elim (Option-cases (get_elem? s.clients k)) [
  | inl z ↦ rw (z, set_pending) refl
  | inr (cl, h) ↦
      let v = views-set s.clients k cl (record cl { pending = n }) h refl in
      rw (h, set_pending) (ap (λ t. held (get_elem? t j) + answers j s.output) v)
]

-- The look at the waiting tasks leaves for every client the sum of its waiting tasks and of the
-- answers it was given: a task that it answers from the cache or gives up is answered once.
pub charge-chk_pending :
    (w : Waits) (now : Timeb) (j k : ℕ) (s d : Hub)
    → chk_pending w now k s ≡ some d
    → owed j d + answers j d.output ≡ owed j s + answers j s.output
unfolding chk_pending
charge-chk_pending w now j k s d f = elim (Option-cases (get_elem? s.clients k)) [
  | inl z ↦ absurd (let g = rw (z, chk_pending) at f in cc)
  | inr (cl, c) ↦ elim (Option-cases cl.ecmtask) [
    | inl z ↦
        let g : some (set_pending k 0 s) ≡ some d = rw (c, z, chk_pending) at f in
        let q : set_pending k 0 s ≡ d = cc in rw (← q) (charge-set_pending j k 0 s)
    | inr (tasks, t) ↦ elim (Option-cases (pending_loop w cl.grp now k (length tasks) 0 s)) [
      | inl z ↦ absurd (let g = rw (c, t, z, chk_pending) at f in cc)
      | inr (r, z) ↦
          let g : some (set_pending k r.0 r.1) ≡ some d = rw (c, t, z, chk_pending) at f in
          let q : set_pending k r.0 r.1 ≡ d = cc in
          rw (← q) (
            charge-set_pending j k r.0 r.1
            ∙ charge-pending_loop w cl.grp now j k (length tasks) 0 s r z)
    ]
  ]
]
