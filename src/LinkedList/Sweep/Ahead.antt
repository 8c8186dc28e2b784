-- ===== src/LinkedList/Sweep/Ahead.antt =====
-- About `ll_iter_move` and `ll_iter_peek`.
use mathlib.Core.Path.{subst}
use oscam_vdr.Base.{ℕ, zero, suc, ◌≡◌, refl, sym, Option, none, some, List, [], ◌∷◌, ◌++◌}
use oscam_vdr.LinkedList.{Llist, Iter, deref, obj_at}
use oscam_vdr.LinkedList.Chain.{
  Cell, head_or, Seg, Seg-split, IsList, usable_lock, ne_test, append-cons,
}
use oscam_vdr.LinkedList.Iterator.{at_cells, next-at_cells}
use oscam_vdr.LinkedList.Sweep.{move_loop, ll_iter_move, peek_loop, ll_iter_peek}

-- The object at an offset from the first of the cells, or NULL.
abbrev pub nth_obj : ℕ → List Cell → ℕ
nth_obj k [] = 0
nth_obj zero (c ∷ cs) = c.obj
nth_obj (suc k) (c ∷ cs) = nth_obj k cs

peek_loop-nth_obj :
    (k : ℕ) (l : Llist) (cells : List Cell)
    → Seg l.node 0 cells
    → (elim (peek_loop k (head_or 0 cells) l) [ none ↦ none | some n ↦ obj_at n l ])
      ≡ some (nth_obj k cells)
unfolding peek_loop obj_at
peek_loop-nth_obj zero l [] s = refl
peek_loop-nth_obj zero l (c ∷ cs) s = rw (ne_test c.address s.1) (rw (s.0, deref) refl)
peek_loop-nth_obj (suc k) l [] s = refl
peek_loop-nth_obj (suc k) l (c ∷ cs) s =
    rw (ne_test c.address s.1, peek_loop) (rw (s.0, peek_loop) (peek_loop-nth_obj k l cs s.4))

abbrev pub found : Option (ℕ × Iter) → Option ℕ
found none = none
found (some r) = some r.0

move_loop-nth_obj :
    (k res : ℕ) (l : Llist) (ys : List Cell) (c : Cell) (zs : List Cell)
    → IsList l (ys ++ (c ∷ zs))
    → found (move_loop (suc k) res (at_cells ys (c ∷ zs)) l) ≡ some (nth_obj k zs)
unfolding move_loop
move_loop-nth_obj k res l ys c [] h = rw (next-at_cells l ys c [] h, move_loop) refl
move_loop-nth_obj zero res l ys c (z ∷ zs) h =
    let (a, s, q) = Seg-split l.node 0 ys (c ∷ z ∷ zs) h.chain in
    let r = s.4 in rw (next-at_cells l ys c (z ∷ zs) h, move_loop) (rw (ne_test z.obj r.2) refl)
move_loop-nth_obj (suc k) res l ys c (z ∷ zs) h =
    let (a, s, q) = Seg-split l.node 0 ys (c ∷ z ∷ zs) h.chain in
    let r = s.4 in
    rw (next-at_cells l ys c (z ∷ zs) h, move_loop)
      (rw (ne_test z.obj r.2) (
        move_loop-nth_obj k z.obj l (ys ++ (c ∷ [])) z zs
          (subst (λ (t : List Cell). IsList l t) (sym (append-cons ys c (z ∷ zs))) h)))

-- From a node of the list, looking one or more nodes ahead yields the object that moving the
-- iterator so far does: that of the node there, or NULL behind the end.
pub peek-move :
    (offset : ℕ) (l : Llist) (ys : List Cell) (c : Cell) (zs : List Cell)
    → IsList l (ys ++ (c ∷ zs))
    → (ll_iter_peek (suc offset) (at_cells ys (c ∷ zs)) l ≡ some (nth_obj offset zs))
      × (found (ll_iter_move (suc offset) (at_cells ys (c ∷ zs)) l) ≡ some (nth_obj offset zs))
unfolding ll_iter_peek ll_iter_move
peek-move k l ys c zs h =
    let (a, s, q) = Seg-split l.node 0 ys (c ∷ zs) h.chain in
    rw (usable_lock l h.usable)
      (peek_loop-nth_obj (suc k) l (c ∷ zs) s, move_loop-nth_obj k 0 l ys c zs h)
