-- ===== src/Server/Tasks/Views.antt =====
-- The clients' tasks as one list per client, which most of the calls leave as it is.
use oscam_vdr.Base.{
  ℕ, zero, suc, ◌≡◌, ◌≢◌, refl, sym, ap, ap₂, ◌∙◌, Option, none, some, List, [], ◌∷◌, get_elem?,
  set, map, Bool-cases, Option-cases, inl, inr, arith, ◌&&◌, nonzero, bit_and,
}
use oscam_vdr.Server.{Request}
use oscam_vdr.Server.Tasks.{TaskClient, Hub, count, count_all, distribute_tasks, distribute_clients}
use oscam_vdr.Server.Tasks.Answers.{task_at, put_task}

abbrev pub views : List TaskClient → List (Option (List Request))
views = map (λ cl. cl.ecmtask)

abbrev pub tasks_at : List (Option (List Request)) → ℕ → ℕ → Option Request
tasks_at v k i = elim (get_elem? v k) [
  | none ↦ none
  | some o ↦ elim o [ none ↦ none | some tasks ↦ get_elem? tasks i ]
]

get_elem?-map :
    (cls : List TaskClient) (k : ℕ) (cl : TaskClient)
    → get_elem? cls k ≡ some cl
    → get_elem? (views cls) k ≡ some cl.ecmtask
get_elem?-map [] k cl h = absurd (ground arith)
get_elem?-map (x ∷ xs) zero cl h = let e : x ≡ cl = cc in rw e refl
get_elem?-map (x ∷ xs) (suc k) cl h = get_elem?-map xs k cl h

get_elem?-map_none :
    (cls : List TaskClient) (k : ℕ) → get_elem? cls k ≡ none → get_elem? (views cls) k ≡ none
get_elem?-map_none [] k h = refl
get_elem?-map_none (x ∷ xs) zero h = absurd (ground arith)
get_elem?-map_none (x ∷ xs) (suc k) h = get_elem?-map_none xs k h

map-set :
    (cls : List TaskClient) (k : ℕ) (cl : TaskClient)
    → views (set cls k cl) ≡ set (views cls) k cl.ecmtask
map-set [] k cl = refl
map-set (x ∷ xs) zero cl = refl
map-set (x ∷ xs) (suc k) cl = rw (map-set xs k cl) refl

module _ {ℓ} {A : Type ℓ} where
  set_same : (xs : List A) (k : ℕ) (a : A) → get_elem? xs k ≡ some a → set xs k a ≡ xs
  set_same [] k a h = refl
  set_same (x ∷ xs) zero a h = let e : x ≡ a = cc in rw e refl
  set_same (x ∷ xs) (suc k) a h = rw (set_same xs k a h) refl

  pub get_elem?-set :
      (xs : List A) (k : ℕ) (a b : A) → get_elem? xs k ≡ some a → get_elem? (set xs k b) k ≡ some b
  get_elem?-set [] k a b h = absurd (ground arith)
  get_elem?-set (x ∷ xs) zero a b h = refl
  get_elem?-set (x ∷ xs) (suc k) a b h = get_elem?-set xs k a b h

  pub get_elem?-set_ne :
      (xs : List A) (k j : ℕ) (b : A) → k ≢ j → get_elem? (set xs k b) j ≡ get_elem? xs j
  get_elem?-set_ne [] k j b n = refl
  get_elem?-set_ne (x ∷ xs) zero zero b n = absurd (n refl)
  get_elem?-set_ne (x ∷ xs) zero (suc j) b n = refl
  get_elem?-set_ne (x ∷ xs) (suc k) zero b n = refl
  get_elem?-set_ne (x ∷ xs) (suc k) (suc j) b n = get_elem?-set_ne xs k j b (λ e. n (ap suc e))

-- A change of a client that keeps its tasks keeps the view.
pub views-set :
    (cls : List TaskClient) (k : ℕ) (cl new : TaskClient)
    → get_elem? cls k ≡ some cl
    → new.ecmtask ≡ cl.ecmtask
    → views (set cls k new) ≡ views cls
views-set cls k cl new h e =
    map-set cls k new
    ∙ set_same (views cls) k new.ecmtask (get_elem?-map cls k cl h ∙ ap some (sym e))

pub task_at-views : (k i : ℕ) (s : Hub) → task_at k i s ≡ tasks_at (views s.clients) k i
unfolding task_at
task_at-views k i s = elim (Option-cases (get_elem? s.clients k)) [
  | inl n ↦ rw (n, get_elem?-map_none s.clients k n, task_at, tasks_at) refl
  | inr (cl, h) ↦ rw (h, get_elem?-map s.clients k cl h, task_at, tasks_at) refl
]

-- A write to a task that is there.
pub put_task-views :
    (k i : ℕ) (t old : Request) (s : Hub)
    → task_at k i s ≡ some old
    → (tasks : List Request) × (get_elem? (views s.clients) k ≡ some (some tasks))
      × (get_elem? tasks i ≡ some old)
      × (views (put_task k i t s).clients ≡ set (views s.clients) k (some (set tasks i t)))
unfolding task_at put_task
put_task-views k i t old s h = elim (Option-cases (get_elem? s.clients k)) [
  | inl n ↦ absurd (let e = rw (n, task_at) at h in cc)
  | inr (cl, g) ↦ elim (Option-cases cl.ecmtask) [
    | inl n ↦ absurd (let e = rw (g, n, task_at) at h in cc)
    | inr (tasks, e) ↦ (
      tasks,
      get_elem?-map s.clients k cl g ∙ ap some e,
      rw (g, e, task_at) at h,
      rw (g, e, put_task) (map-set s.clients k (record cl { ecmtask = some (set tasks i t) })),
    )
  ]
]

pub count_all-views :
    (k rc rc_ex : ℕ) (s : Hub) → views (count_all k rc rc_ex s).clients ≡ views s.clients
unfolding count_all
count_all-views k rc rc_ex s = elim (Option-cases (get_elem? s.clients k)) [
  | inl n ↦ rw (n, count_all) refl
  | inr (cl, h) ↦
      rw (h, count_all)
        (views-set s.clients k cl (record cl { counters = count rc rc_ex cl.counters }) h refl)
]

pub distribute_clients-views :
    (grp k : ℕ) (cls : List TaskClient) (er : Request)
    → views (distribute_clients grp k cls er).0 ≡ views cls
unfolding distribute_clients
distribute_clients-views grp k [] er = refl
distribute_clients-views grp k (cl ∷ cls) er = elim (Option-cases cl.ecmtask) [
  | inl n ↦ rw (n, distribute_clients) (ap₂ ◌∷◌ n (distribute_clients-views grp (suc k) cls er))
  | inr (tasks, e) ↦ elim (Bool-cases (cl.pipe && (cl.typ_c && nonzero (bit_and cl.grp grp)))) [
    | inl b ↦
        rw (e, b, distribute_clients)
          (ap₂ ◌∷◌ e
            (distribute_clients-views grp (suc k) cls (distribute_tasks k tasks (0, er, [])).1))
    | inr b ↦
        rw (e, b, distribute_clients) (ap₂ ◌∷◌ e (distribute_clients-views grp (suc k) cls er))
  ]
]
