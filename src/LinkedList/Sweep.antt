-- ===== src/LinkedList/Sweep.antt =====
-- module-datastruct-llist.c: `ll_clear`, `ll_iter_insert`, and moving or looking ahead from an
-- iterator.
pub mod Clear
pub mod Insert
pub mod Ahead
use mathlib.Core.Path.{subst}
use oscam_vdr.Base.{
  ℕ, zero, suc, ◌+◌, ◌-◌, ◌≤◌, ◌<◌, ◌≡◌, ◌≢◌, refl, ap, sym, ◌∙◌, Bool, true, false, ◌||◌, not,
  Option, none, some, List, [], ◌∷◌, ◌++◌, ◌==◌, ==_refl, nonzero, if◌then◌else◌, length,
  length-append, ◌⊎◌, inl, inr, arith, u8,
}
use oscam_vdr.LinkedList.{
  Node, Llist, Iter, write, deref, ll_lock, ll_append_nolock, ll_iter_create, ll_iter_next_nolock,
  obj_at,
}

-- The loop of `ll_clear_int` from the node at the given address, in at most so many rounds.
unfoldable pub clear_loop : ℕ → Bool → ℕ → Llist → Option Llist
clear_loop zero clear_data n l = if n == 0 then some l else none
clear_loop (suc rounds) clear_data n l = elim (n == 0) [
  | true ↦ some l
  | false ↦ elim (l.node n) [
    | none ↦ none
    | some nd ↦ clear_loop rounds clear_data nd.nxt (record l {
      node = write l.node n (record nd { flag = u8 (nd.flag + 1) });
      garbage =
          if nonzero nd.flag
          then l.garbage
          else n ∷ (if clear_data then nd.obj ∷ l.garbage else l.garbage);
    })
  ]
]

abbrev pub emptied : Option Llist → Option Llist
emptied none = none
emptied (some l) = some (record l { count = 0; initial = 0; last = 0 })

unfoldable pub ll_clear_int : Bool → Llist → Option Llist
ll_clear_int clear_data l =
    if ll_lock l then emptied (clear_loop (l.count + 1) clear_data l.initial l) else some l

-- The address of the node that was appended is not used.
abbrev pub list_of : Option (ℕ × Llist) → Option Llist
list_of none = none
list_of (some r) = some r.1

unfoldable pub ll_iter_insert : ℕ → ℕ → Iter → Llist → Option Llist
ll_iter_insert new obj it l =
    if obj == 0 || not (ll_lock l)
    then some l
    else if it.cur == 0
    then list_of (ll_append_nolock new obj l)
    else deref l.node it.cur λ c.
      (if c.nxt == 0
        then list_of (ll_append_nolock new obj l)
        else if new == 0
        then some l
        else some (record l {
          node =
              write (write l.node new (record { obj = obj; nxt = c.nxt; flag = 0 })) it.cur
                (record c { nxt = new });
          count = l.count + 1;
        }))

-- The loop of `ll_iter_move`: the last result, and the iterator.
unfoldable pub move_loop : ℕ → ℕ → Iter → Llist → Option (ℕ × Iter)
move_loop zero res it l = some (res, it)
move_loop (suc rest) res it l = elim (ll_iter_next_nolock it l) [
  | none ↦ none
  | some (found, it') ↦ elim (found == 0) [
    | true ↦ some (0, it')
    | false ↦ move_loop rest found it' l
  ]
]

unfoldable pub ll_iter_move : ℕ → Iter → Llist → Option (ℕ × Iter)
ll_iter_move offset it l = if ll_lock l then move_loop offset 0 it l else some (0, it)

-- The loop of `ll_iter_peek`: the address it ends at.
unfoldable pub peek_loop : ℕ → ℕ → Llist → Option ℕ
peek_loop zero n l = some n
peek_loop (suc rest) n l = elim (n == 0) [
  | true ↦ some n
  | false ↦ elim (l.node n) [ none ↦ none | some nd ↦ peek_loop rest nd.nxt l ]
]

unfoldable pub ll_iter_peek : ℕ → Iter → Llist → Option ℕ
ll_iter_peek offset it l =
    if ll_lock l
    then (elim (peek_loop offset it.cur l) [ none ↦ none | some n ↦ obj_at n l ])
    else some 0

-- What `ll_has_elements` returns: the first object, or NULL.
unfoldable pub ll_has_elements : Llist → Option ℕ
ll_has_elements l = obj_at l.initial l
