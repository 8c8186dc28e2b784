-- ===== src/LinkedList/Sweep/Clear.antt =====
-- About `ll_clear` and `ll_clear_data`.
use mathlib.Core.Path.{subst}
use oscam_vdr.Base.{
  ℕ, zero, suc, ◌+◌, ◌<◌, ◌≡◌, refl, sym, Bool, Option, none, some, List, [], ◌∷◌, nonzero,
  if◌then◌else◌, length, arith, u8,
}
use oscam_vdr.LinkedList.{Llist, write}
use oscam_vdr.LinkedList.Chain.{Cell, head_or, Seg, Seg-write, IsList, usable_lock, ne_test}
use oscam_vdr.LinkedList.Sweep.{clear_loop, emptied, ll_clear_int}

-- The garbage behind the removal of all the cells: a node whose flag was set is not passed on.
abbrev pub dropped : Bool → List Cell → List ℕ → List ℕ
dropped clear_data [] garbage = garbage
dropped clear_data (c ∷ cs) garbage = dropped clear_data cs (
    if nonzero c.flag
    then garbage
    else c.address ∷ (if clear_data then c.obj ∷ garbage else garbage))

abbrev pub Sweeps : List ℕ → Option Llist → Type 0
Sweeps garbage none = ⊥
Sweeps garbage (some l) = (l.garbage ≡ garbage) × (l.flag ≡ 0)

clear_loop-Sweeps :
    (rounds : ℕ) (clear_data : Bool) (l : Llist) (cells : List Cell)
    → Seg l.node 0 cells
    → l.flag ≡ 0
    → length cells < rounds
    → Sweeps (dropped clear_data cells l.garbage) (clear_loop rounds clear_data (head_or 0 cells) l)
unfolding clear_loop
clear_loop-Sweeps zero cd l cells s f b = absurd (omega arith)
clear_loop-Sweeps (suc rounds) cd l [] s f b = (refl, f)
clear_loop-Sweeps (suc rounds) cd l (c ∷ cs) s f b =
    rw (ne_test c.address s.1, clear_loop)
      (rw (s.0, clear_loop)
        (clear_loop-Sweeps rounds cd
          (record l {
            node =
                write l.node c.address
                  (record { obj = c.obj; nxt = head_or 0 cs; flag = u8 (c.flag + 1) });
            garbage =
                if nonzero c.flag
                then l.garbage
                else c.address ∷ (if cd then c.obj ∷ l.garbage else l.garbage);
          })
          cs
          (Seg-write l.node c.address
            (record { obj = c.obj; nxt = head_or 0 cs; flag = u8 (c.flag + 1) }) 0 cs s.3 s.4)
          f (omega arith)))

-- What is left of a list that was cleared.
abbrev pub Clears : List ℕ → Option Llist → Type 0
Clears garbage none = ⊥
Clears garbage (some l) = (l.garbage ≡ garbage) × IsList l []

emptied-Clears : (g : List ℕ) (r : Option Llist) → Sweeps g r → Clears g (emptied r)
emptied-Clears g none h = h
emptied-Clears g (some l) h =
    (h.0, record { chain = tt; first = refl; final = refl; counted = refl; usable = h.1 })

-- Clearing a list always ends with an empty list. The nodes whose flag was not set have become
-- garbage in their order, each behind its object if the objects are to go too.
pub ll_clear_int-Clears :
    (clear_data : Bool) (l : Llist) (cells : List Cell)
    → IsList l cells
    → Clears (dropped clear_data cells l.garbage) (ll_clear_int clear_data l)
unfolding ll_clear_int
ll_clear_int-Clears cd l cells h = rw (usable_lock l h.usable) (
    emptied-Clears (dropped cd cells l.garbage) (clear_loop (l.count + 1) cd l.initial l) (
      subst (λ (n : ℕ). Sweeps (dropped cd cells l.garbage) (clear_loop (l.count + 1) cd n l))
        (sym h.first)
        (clear_loop-Sweeps (l.count + 1) cd l cells h.chain h.usable (omega (arith, h.counted)))))
