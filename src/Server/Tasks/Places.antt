-- ===== src/Server/Tasks/Places.antt =====
-- About the place that a new request takes among the tasks of its client.
use oscam_vdr.Base.{
  ℕ, suc, ◌+◌, ◌≡◌, ◌≢◌, refl, ap, true, false, none, some, List, [], ◌∷◌, ltb, get_elem?, length,
  Bool-cases, Option-cases, inl, inr, arith,
}
use oscam_vdr.Server.{Request, e_99, e_unhandled}
use oscam_vdr.Server.Tasks.{TaskClient, is_pending, free_task, tasks_of, take_task, get_ecmtask}
use oscam_vdr.Server.Tasks.Views.{get_elem?-set, get_elem?-set_ne}
use oscam_vdr.Server.Tasks.Charge.{waiting}

-- The place is of a task that does not wait.
abbrev pub Free : List Request → ℕ → Type 0
Free ts n = (t : Request) × (get_elem? ts n ≡ some t) × (is_pending t ≡ false)

free_task-Free :
    (i n : ℕ) (ts : List Request) → (free_task i ts).0 ≡ some n → (m : ℕ) × (n ≡ i + m) × Free ts m
unfolding free_task
free_task-Free i n [] h = absurd (ground arith)
free_task-Free i n (t ∷ ts) h = elim (Bool-cases (ltb t.rc e_99)) [
  | inl low ↦
      let e : some i ≡ some n = rw low at h in
      let q : i ≡ n = cc in (0, omega arith, (t, refl, ground arith))
  | inr high ↦ let (m, e, f) = free_task-Free (suc i) n ts (rw high at h) in (suc m, omega arith, f)
]

free_task-none : (i : ℕ) (ts : List Request) → (free_task i ts).0 ≡ none → waiting ts ≡ length ts
unfolding free_task
free_task-none i [] h = refl
free_task-none i (t ∷ ts) h = elim (Bool-cases (ltb t.rc e_99)) [
  | inl low ↦ absurd (let e = rw low at h in cc)
  | inr high ↦ ground (arith, free_task-none (suc i) ts (rw high at h))
]

get_ecmtask-multi :
    (time millitm k : ℕ) (cl : TaskClient)
    → cl.multi ≡ true
    → get_ecmtask time millitm k cl
      ≡ take_task time millitm k cl (tasks_of cl) (free_task 0 (tasks_of cl))
unfolding get_ecmtask
get_ecmtask-multi time millitm k cl multi =
    ap (take_task time millitm k cl (tasks_of cl)) (rw multi refl)

get_ecmtask-place :
    (time millitm k n : ℕ) (cl : TaskClient)
    → cl.multi ≡ true
    → (get_ecmtask time millitm k cl).1 ≡ some n
    → ((free_task 0 (tasks_of cl)).0 ≡ some n) × Free (tasks_of cl) n
unfolding take_task
get_ecmtask-place time millitm k n cl multi h =
    let g = get_ecmtask-multi time millitm k cl multi in
    elim (Option-cases (free_task 0 (tasks_of cl)).0) [
      | inl z ↦ absurd (let e = rw (g, z, take_task) at h in cc)
      | inr (p, z) ↦
          let e : some p ≡ some n = rw (g, z, take_task) at h in
          let q : p ≡ n = cc in
          let z1 : (free_task 0 (tasks_of cl)).0 ≡ some n = rw (← q) z in
          let (m, a, f) = free_task-Free 0 n (tasks_of cl) z1 in
          let b : n ≡ m = omega arith in (z1, rw b f)
    ]

-- A new request of a client whose protocol has several gets a place that was free, with a code
-- that waits and the number of its place, where its answer will look for it.
pub get_ecmtask-Free :
    (time millitm k n : ℕ) (cl : TaskClient)
    → cl.multi ≡ true
    → (get_ecmtask time millitm k cl).1 ≡ some n
    → Free (tasks_of cl) n
      × ((t : Request) × (get_elem? (tasks_of (get_ecmtask time millitm k cl).0) n ≡ some t)
          × ((t.rc ≡ e_unhandled) × (t.cpti ≡ n) × (t.client ≡ some k)))
unfolding take_task
get_ecmtask-Free time millitm k n cl multi h =
    let ts = tasks_of cl in
    let g = get_ecmtask-multi time millitm k cl multi in
    let (z, free) = get_ecmtask-place time millitm k n cl multi h in
    let (old, o, _) = free in
    rw (g, z, take_task) (free, (_, get_elem?-set ts n old _ o, (refl, refl, refl)))

-- Every task but the one at the new request's place stays as it was.
pub get_ecmtask-keeps :
    (time millitm k n : ℕ) (cl : TaskClient)
    → cl.multi ≡ true
    → (get_ecmtask time millitm k cl).1 ≡ some n
    → (m : ℕ) → n ≢ m
    → get_elem? (tasks_of (get_ecmtask time millitm k cl).0) m ≡ get_elem? (tasks_of cl) m
unfolding take_task
get_ecmtask-keeps time millitm k n cl multi h m ne =
    let g = get_ecmtask-multi time millitm k cl multi in
    let z = (get_ecmtask-place time millitm k n cl multi h).0 in
    rw (g, z, take_task) (get_elem?-set_ne (tasks_of cl) n m _ ne)

-- Such a request is refused only where every place waits, and the tasks stay as they were.
pub get_ecmtask-waiting :
    (time millitm k : ℕ) (cl : TaskClient)
    → cl.multi ≡ true
    → (get_ecmtask time millitm k cl).1 ≡ none
    → (waiting (tasks_of cl) ≡ length (tasks_of cl))
      × (tasks_of (get_ecmtask time millitm k cl).0 ≡ tasks_of cl)
unfolding take_task
get_ecmtask-waiting time millitm k cl multi h =
    let ts = tasks_of cl in
    let g = get_ecmtask-multi time millitm k cl multi in
    elim (Option-cases (free_task 0 ts).0) [
      | inl z ↦ (free_task-none 0 ts z, rw (g, z, take_task) refl)
      | inr (p, z) ↦ absurd (let e = rw (g, z, take_task) at h in cc)
    ]
