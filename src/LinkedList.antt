-- ===== src/LinkedList.antt =====
-- module-datastruct-llist.c: a list of nodes at addresses, with iterators. An operation runs under
-- the lock of the list, so it is one step. NULL is 0, and none is a read through a pointer to no
-- node. The argument `new` is the address that `cs_malloc` returns, 0 where it fails.
pub mod Chain
pub mod Grow
pub mod Iterator
pub mod Remove
pub mod Loops
pub mod Flags
pub mod Moves
pub mod Sweep
mod Tests
use oscam_vdr.Base.{
  ℕ, zero, suc, ◌+◌, ◌-◌, Bool, true, false, ◌||◌, not, Option, none, some, List, [], ◌∷◌, ◌==◌,
  nonzero, if◌then◌else◌, u8,
}

-- `struct llnode`
pub record Node : Type 0 where
  pub obj : ℕ
  pub nxt : ℕ
  pub flag : ℕ

-- `struct llist`, with the nodes in memory and what was passed to `add_garbage`, the last first.
-- Garbage is still readable: its memory is freed seconds later.
pub record Llist : Type 0 where
  pub node : ℕ → Option Node
  pub address : ℕ
  pub initial : ℕ
  pub last : ℕ
  pub count : ℕ
  pub flag : ℕ
  pub garbage : List ℕ

-- `struct lliter`, the list apart.
pub record Iter : Type 0 where
  pub cur : ℕ
  pub prv : ℕ

abbrev pub write : (ℕ → Option Node) → ℕ → Node → ℕ → Option Node
write node p n a = if p == a then some n else node a

abbrev pub deref : {A : Type 0} → (ℕ → Option Node) → ℕ → (Node → Option A) → Option A
deref node p k = elim (node p) [ none ↦ none | some n ↦ k n ]

-- `ll_lock` waits for the lock of a list that is in use, and fails on one that was destroyed.
abbrev pub ll_lock : Llist → Bool
ll_lock l = l.flag == 0

-- The address of the node that was added, or 0, and the list.
unfoldable pub ll_append_nolock : ℕ → ℕ → Llist → Option (ℕ × Llist)
ll_append_nolock new obj l =
    let node = write l.node new (record { obj = obj; nxt = 0; flag = 0 }) in
    if obj == 0 || new == 0
    then some (0, l)
    else if l.last == 0
    then some (new, record l { node = node; initial = new; last = new; count = l.count + 1 })
    else deref node l.last λ n. some (
      new,
      record l {
        node = write node l.last (record n { nxt = new });
        last = new;
        count = l.count + 1;
      },
    )

unfoldable pub ll_append : ℕ → ℕ → Llist → Option (ℕ × Llist)
ll_append new obj l = if ll_lock l then ll_append_nolock new obj l else some (0, l)

unfoldable pub ll_prepend : ℕ → ℕ → Llist → ℕ × Llist
ll_prepend new obj l =
    if obj == 0 || new == 0
    then (0, l)
    else if ll_lock l
    then (
      new,
      record l {
        node = write l.node new (record { obj = obj; nxt = l.initial; flag = 0 });
        initial = new;
        last = if l.last == 0 then new else l.last;
        count = l.count + 1;
      },
    )
    else (0, record l { garbage = new ∷ l.garbage })

abbrev pub ll_iter_create : Iter
ll_iter_create = record { cur = 0; prv = 0 }

-- Where the iterator is after one step.
unfoldable pub step_iter : Iter → Llist → Option Iter
step_iter it l =
    if nonzero it.cur
    then (deref l.node it.cur λ n. some (record { cur = n.nxt; prv = it.cur }))
    else if nonzero l.initial
    then (if it.prv == 0 then some (record { cur = l.initial; prv = 0 }) else some it)
    else some it

-- The object there, or NULL.
unfoldable pub obj_at : ℕ → Llist → Option ℕ
obj_at cur l = if cur == 0 then some 0 else deref l.node cur λ n. some n.obj

unfoldable pub ll_iter_next_nolock : Iter → Llist → Option (ℕ × Iter)
ll_iter_next_nolock it l = elim (step_iter it l) [
  | none ↦ none
  | some it' ↦ elim (obj_at it'.cur l) [ none ↦ none | some obj ↦ some (obj, it') ]
]

unfoldable pub ll_iter_next : Iter → Llist → Option (ℕ × Iter)
ll_iter_next it l = if ll_lock l then ll_iter_next_nolock it l else some (0, it)

-- `while (prv && ll_iter_next_nolock(it)) if (it->cur == prv) break;` for a `prv` that is not
-- NULL, in at most the given number of rounds; none where they do not suffice.
unfoldable pub walk_to : ℕ → ℕ → Iter → Llist → Option Iter
walk_to zero prv it l = none
walk_to (suc rounds) prv it l = elim (ll_iter_next_nolock it l) [
  | none ↦ none
  | some (obj, it') ↦ elim (obj == 0 || it'.cur == prv) [
    | true ↦ some it'
    | false ↦ walk_to rounds prv it' l
  ]
]

-- What `ll_iter_remove` does to the list: the node is unlinked.
unfoldable pub unlink : ℕ → ℕ → Node → Llist → Option Llist
unlink prv cur del l =
    if prv == 0
    then some (record l {
      initial = del.nxt;
      last = if del.nxt == 0 then 0 else if cur == l.last then prv else l.last;
      count = l.count - 1;
    })
    else deref l.node prv λ p. some (record l {
      node = write l.node prv (record p { nxt = del.nxt });
      last = if l.initial == 0 then 0 else if cur == l.last then prv else l.last;
      count = l.count - 1;
    })

-- The object that was removed, or NULL, the iterator and the list. The walk back to `prv` takes at
-- most as many rounds as the list has nodes.
unfoldable pub ll_iter_remove : Iter → Llist → Option (ℕ × Iter × Llist)
ll_iter_remove it l =
    if not (ll_lock l) || it.cur == 0
    then some (0, it, l)
    else deref l.node it.cur λ del.
      (let l' = record l { node = write l.node it.cur (record del { flag = u8 (del.flag + 1) }) } in
        if nonzero del.flag then some (0, it, l') else elim (unlink it.prv it.cur del l') [
          | none ↦ none
          | some u ↦
              let done = record u { garbage = it.cur ∷ u.garbage } in
              if it.prv == 0
              then some (del.obj, ll_iter_create, done)
              else elim (walk_to (l.count + 1) it.prv ll_iter_create u) [
                | none ↦ none
                | some it' ↦ some (del.obj, it', done)
              ]
        ])

-- 1 if the node was moved, the iterator and the list.
unfoldable pub ll_iter_move_first : Iter → Llist → Option (ℕ × Iter × Llist)
ll_iter_move_first it l =
    if not (ll_lock l) || it.cur == 0
    then some (0, it, l)
    else deref l.node it.cur λ move.
      (let flagged = record move { flag = u8 (move.flag + 1) } in
        if nonzero move.flag
        then some (0, it, record l { node = write l.node it.cur flagged })
        else if it.prv == 0
        then some
            (1, ll_iter_create, record l { node = write l.node it.cur flagged; initial = it.cur })
        else deref l.node it.prv λ p. some (
          1,
          ll_iter_create,
          record l {
            node =
                write (write l.node it.prv (record p { nxt = move.nxt })) it.cur
                  (record flagged { nxt = l.initial });
            initial = it.cur;
            last = if l.last == it.cur then it.prv else l.last;
          },
        ))

-- The loop of `ll_remove` in at most the given number of rounds: `n` and the list.
unfoldable pub remove_loop : ℕ → ℕ → Iter → ℕ → Llist → Option (ℕ × Llist)
remove_loop zero obj it n l = none
remove_loop (suc rounds) obj it n l = elim (ll_iter_next it l) [
  | none ↦ none
  | some (found, it') ↦ elim (found == 0) [
    | true ↦ some (n, l)
    | false ↦ elim (found == obj) [
      | false ↦ remove_loop rounds obj it' n l
      | true ↦ elim (ll_iter_remove it' l) [
        | none ↦ none
        | some (removed, it'', l') ↦ remove_loop rounds obj it'' (n + 1) l'
      ]
    ]
  ]
]

-- Each round meets another node.
unfoldable pub ll_remove : ℕ → Llist → Option (ℕ × Llist)
ll_remove obj l = remove_loop (l.count + 1) obj ll_iter_create 0 l

-- The loop of `ll_contains`.
unfoldable pub contains_loop : ℕ → ℕ → Iter → Llist → Option Bool
contains_loop zero obj it l = none
contains_loop (suc rounds) obj it l = elim (ll_iter_next it l) [
  | none ↦ none
  | some (found, it') ↦ elim (found == 0) [
    | true ↦ some false
    | false ↦ elim (found == obj) [ true ↦ some true | false ↦ contains_loop rounds obj it' l ]
  ]
]

unfoldable pub ll_contains : ℕ → Llist → Option Bool
ll_contains obj l =
    if obj == 0 then some false else contains_loop (l.count + 1) obj ll_iter_create l

abbrev pub ll_count : Llist → ℕ
ll_count l = l.count
