-- ===== src/Server/Tasks/Charge.antt =====
-- What counts for a client: the tasks that wait, and the answers that were given.
use oscam_vdr.Base.{
  ℕ, zero, suc, ◌+◌, ◌<◌, ◌≡◌, refl, sym, ap, ◌∙◌, Bool, true, false, Option, none, some, List, [],
  ◌∷◌, ◌++◌, ◌==◌, leb, if◌then◌else◌, to_int, get_elem?, set, Bool-cases, Option-cases, inl, inr,
  arith, ◌&&◌, nonzero, bit_and,
}
use oscam_vdr.Server.{Request, e_99, e_found, e_fake}
use oscam_vdr.Server.Tasks.{
  TaskClient, Hub, Output, dcw, stat, piped, requested, is_pending, emit, send_reader_stat,
  count_all, check_cw, checked, send_dcw, same_pointer, distribute_tasks, distribute_clients,
  distribute_ecm,
}
use oscam_vdr.Server.Tasks.Answers.{task_at, put_task, answer_task}
use oscam_vdr.Server.Tasks.Views.{
  views, tasks_at, get_elem?-set, get_elem?-set_ne, task_at-views, put_task-views, count_all-views,
  distribute_clients-views,
}

-- How many of the tasks wait.
abbrev pub waiting : List Request → ℕ
waiting [] = 0
waiting (t ∷ ts) = to_int (is_pending t) + waiting ts

abbrev pub held : Option (Option (List Request)) → ℕ
held none = 0
held (some none) = 0
held (some (some tasks)) = waiting tasks

-- How many tasks of the client wait.
abbrev pub owed : ℕ → Hub → ℕ
owed j s = held (get_elem? (views s.clients) j)

-- Whether the output is an answer to the client.
abbrev pub is_answer : ℕ → Output → Bool
is_answer j (dcw k er) = k == j
is_answer j (stat rdr er rc) = false
is_answer j (piped k er) = false
is_answer j (requested rdr er) = false

abbrev pub answers : ℕ → List Output → ℕ
answers j [] = 0
answers j (o ∷ os) = to_int (is_answer j o) + answers j os

pub answers-append :
    (j : ℕ) (xs ys : List Output) → answers j (xs ++ ys) ≡ answers j xs + answers j ys
answers-append j [] ys = omega arith
answers-append j (x ∷ xs) ys = omega (arith, answers-append j xs ys)

waiting-set :
    (ts : List Request) (i : ℕ) (t old : Request)
    → get_elem? ts i ≡ some old
    → waiting (set ts i t) + to_int (is_pending old) ≡ waiting ts + to_int (is_pending t)
waiting-set [] i t old h = absurd (ground arith)
waiting-set (x ∷ xs) zero t old h = let e : x ≡ old = cc in rw e (omega arith)
waiting-set (x ∷ xs) (suc i) t old h = omega (arith, waiting-set xs i t old h)

-- A task that takes the place of another is one more or less that waits.
pub owed-put_task :
    (j k i : ℕ) (t old : Request) (s : Hub)
    → task_at k i s ≡ some old
    → owed j (put_task k i t s) + to_int ((k == j) && is_pending old)
      ≡ owed j s + to_int ((k == j) && is_pending t)
owed-put_task j k i t old s h =
    let (tasks, v, g, w) = put_task-views k i t old s h in
    elim (Bool-cases (k == j)) [
      | inl e ↦
          let p : j ≡ k = ground arith in
          rw (e, w, p, v, get_elem?-set (views s.clients) k _ (some (set tasks i t)) v)
            (waiting-set tasks i t old g)
      | inr e ↦
          rw
            (
              e,
              w,
              get_elem?-set_ne (views s.clients) k j (some (set tasks i t)) (λ q. ground arith),
            )
            refl
    ]

pub task_at-put_task :
    (k i : ℕ) (t old : Request) (s : Hub)
    → task_at k i s ≡ some old
    → task_at k i (put_task k i t s) ≡ some t
task_at-put_task k i t old s h =
    let (tasks, v, g, w) = put_task-views k i t old s h in
    task_at-views k i (put_task k i t s)
    ∙ (rw (w, get_elem?-set (views s.clients) k _ (some (set tasks i t)) v, tasks_at)
        (get_elem?-set tasks i old t g))

-- What counts for a client: what waits, and what was answered.
abbrev pub charge : ℕ → Hub → ℕ
charge j s = owed j s + answers j s.output

pub charge-send_reader_stat :
    (j : ℕ) (rdr : Option ℕ) (er : Request) (rc : ℕ) (s : Hub)
    → charge j (send_reader_stat rdr er rc s) ≡ charge j s
unfolding send_reader_stat
charge-send_reader_stat j rdr er rc s = elim (Bool-cases (leb e_99 rc)) [
  | inl e ↦ rw (e, send_reader_stat) refl
  | inr e ↦
      rw (e, send_reader_stat) (omega (arith, answers-append j s.output (stat rdr er rc ∷ [])))
]

count_all-output : (k rc rc_ex : ℕ) (s : Hub) → (count_all k rc rc_ex s).output ≡ s.output
unfolding count_all
count_all-output k rc rc_ex s = elim (Option-cases (get_elem? s.clients k)) [
  | inl n ↦ rw (n, count_all) refl
  | inr (cl, h) ↦ rw (h, count_all) refl
]

pub send_reader_stat-views :
    (rdr : Option ℕ) (er : Request) (rc : ℕ) (s : Hub)
    → views (send_reader_stat rdr er rc s).clients ≡ views s.clients
unfolding send_reader_stat
send_reader_stat-views rdr er rc s = elim (Bool-cases (leb e_99 rc)) [
  | inl e ↦ rw (e, send_reader_stat) refl
  | inr e ↦ rw (e, send_reader_stat) refl
]

send_dcw-views :
    (k : ℕ) (er : Request) (s : Hub) → views (send_dcw k er s).1.clients ≡ views s.clients
unfolding send_dcw
send_dcw-views k er s = count_all-views _ _ _ _ ∙ send_reader_stat-views _ _ _ s

-- `send_dcw` is one answer to its client.
charge-send_dcw :
    (j k : ℕ) (er : Request) (s : Hub) → charge j (send_dcw k er s).1 ≡ charge j s + to_int (k == j)
unfolding send_dcw
charge-send_dcw j k er s =
    let er1 = checked er in
    let s1 = send_reader_stat er1.selected_reader (record er1 { caid = er.caid }) er1.rc s in
    let s2 = count_all k er1.rc er1.rc_ex s1 in
    let last = dcw k (if er1.rc == e_fake then record er1 { rc = e_found } else er1) in
    let v : owed j (emit last s2) ≡ owed j s =
      ap (λ t. held (get_elem? t j)) (send_dcw-views k er s) in
    let o : answers j s2.output ≡ answers j s1.output =
      ap (answers j) (count_all-output k er1.rc er1.rc_ex s1) in
    let w : owed j s1 ≡ owed j s =
      ap (λ t. held (get_elem? t j)) (send_reader_stat-views _ _ _ s) in
    omega (
      arith,
      v,
      o,
      w,
      answers-append j s2.output (last ∷ []),
      charge-send_reader_stat j er1.selected_reader (record er1 { caid = er.caid }) er1.rc s,
    )

pub checked-rc : (er : Request) → er.rc < e_99 → (checked er).rc < e_99
unfolding checked check_cw
checked-rc er h = ground arith

distribute_tasks-answers :
    (j k : ℕ) (ts : List Request) (n : ℕ) (er : Request) (out : List Output)
    → answers j (distribute_tasks k ts (n, er, out)).2 ≡ answers j out
unfolding distribute_tasks
distribute_tasks-answers j k [] n er out = refl
distribute_tasks-answers j k (t ∷ ts) n er out = elim (Bool-cases (is_pending t)) [
  | inr p ↦ rw (p, distribute_tasks) (distribute_tasks-answers j k ts n er out)
  | inl p ↦ elim (Bool-cases (same_pointer t.ecmcacheptr er.ecmcacheptr)) [
    | inr q ↦ rw (p, q, distribute_tasks) (distribute_tasks-answers j k ts (suc n) er out)
    | inl q ↦
        let er1 = record er { cpti = t.cpti } in
        rw (p, q, distribute_tasks)
          (distribute_tasks-answers j k ts (suc n) er1 (out ++ (piped k er1 ∷ []))
            ∙ answers-append j out (piped k er1 ∷ [])
            ∙ omega arith)
  ]
]

distribute_clients-answers :
    (j grp k : ℕ) (cls : List TaskClient) (er : Request)
    → answers j (distribute_clients grp k cls er).1 ≡ 0
unfolding distribute_clients
distribute_clients-answers j grp k [] er = refl
distribute_clients-answers j grp k (cl ∷ cls) er = elim (Option-cases cl.ecmtask) [
  | inl n ↦ rw (n, distribute_clients) (distribute_clients-answers j grp (suc k) cls er)
  | inr (tasks, e) ↦ elim (Bool-cases (cl.pipe && (cl.typ_c && nonzero (bit_and cl.grp grp)))) [
    | inr b ↦ rw (e, b, distribute_clients) (distribute_clients-answers j grp (suc k) cls er)
    | inl b ↦
        let r = distribute_tasks k tasks (0, er, []) in
        rw (e, b, distribute_clients)
          (omega (
            arith,
            answers-append j r.2 (distribute_clients grp (suc k) cls r.1).1,
            distribute_tasks-answers j k tasks 0 er [],
            distribute_clients-answers j grp (suc k) cls r.1,
          ))
  ]
]

pub charge-distribute_ecm :
    (j : ℕ) (er : Request) (grp rc : ℕ) (s : Hub)
    → charge j (distribute_ecm er grp rc s) ≡ charge j s
unfolding distribute_ecm
charge-distribute_ecm j er grp rc s =
    let r = distribute_clients grp 0 s.clients (record er { rc = rc }) in
    omega (
      arith,
      ap (λ t. held (get_elem? t j))
          (distribute_clients-views grp 0 s.clients (record er { rc = rc })),
      answers-append j s.output r.1,
      distribute_clients-answers j grp 0 s.clients (record er { rc = rc }),
    )

pub put_task-output : (k i : ℕ) (t : Request) (s : Hub) → (put_task k i t s).output ≡ s.output
unfolding put_task
put_task-output k i t s = elim (Option-cases (get_elem? s.clients k)) [
  | inl n ↦ rw (n, put_task) refl
  | inr (cl, g) ↦ elim (Option-cases cl.ecmtask) [
    | inl n ↦ rw (g, n, put_task) refl
    | inr (tasks, e) ↦ rw (g, e, put_task) refl
  ]
]

pub low-pending : (er : Request) → er.rc < e_99 → is_pending er ≡ false
low-pending er h = ground arith

pub task_at-send_dcw :
    (k i j : ℕ) (er : Request) (s : Hub) → task_at j i (send_dcw k er s).1 ≡ task_at j i s
task_at-send_dcw k i j er s =
    task_at-views j i (send_dcw k er s).1
    ∙ ap (λ v. tasks_at v j i) (send_dcw-views k er s)
    ∙ sym (task_at-views j i s)

-- A task that waited and gets a code below is answered, and waits no more.
pub charge-answer_task :
    (j k i : ℕ) (ert old : Request) (s : Hub)
    → task_at k i s ≡ some old
    → is_pending old ≡ true
    → ert.rc < e_99
    → charge j (answer_task k i ert s).1 ≡ charge j s
unfolding answer_task send_dcw
charge-answer_task j k i ert old s h p low =
    let s1 = put_task k i ert s in
    let r = send_dcw k ert s1 in
    let at = task_at-send_dcw k i k ert s1 ∙ task_at-put_task k i ert old s h in
    let put1 = owed-put_task j k i ert old s h in
    let put2 = owed-put_task j k i r.0 ert r.1 at in
    let q1 = low-pending ert low in
    let q2 : is_pending r.0 ≡ false = low-pending (checked ert) (checked-rc ert low) in
    let o1 : answers j s1.output ≡ answers j s.output =
      ap (answers j) (put_task-output k i ert s) in
    let o2 : answers j (put_task k i r.0 r.1).output ≡ answers j r.1.output =
      ap (answers j) (put_task-output k i r.0 r.1) in
    let sent = charge-send_dcw j k ert s1 in
    elim (Bool-cases (k == j)) [
      | inl e ↦ omega (arith, rw (e, p, q1) at put1, rw (e, q1, q2) at put2, rw e at sent, o1, o2)
      | inr e ↦ omega (arith, rw e at put1, rw e at put2, rw e at sent, o1, o2)
    ]
