-- ===== src/LinkedList/Loops.antt =====
-- About the loops over a list, and nodes whose flag is set.
use mathlib.Core.Path.{subst}
use oscam_vdr.Base.{
  ℕ, zero, suc, ◌+◌, ◌<◌, ◌≡◌, ◌≢◌, refl, sym, ◌∙◌, Option, none, some, List, [], ◌∷◌, ◌++◌, ◌==◌,
  if◌then◌else◌, length, All, any, Bool-cases, inl, inr, arith,
}
use oscam_vdr.LinkedList.{
  Llist, Iter, ll_iter_create, ll_iter_next_nolock, ll_iter_next, ll_iter_remove, remove_loop,
  ll_remove, contains_loop, ll_contains,
}
use oscam_vdr.LinkedList.Chain.{Cell, Seg-split, IsList, usable_lock, ne_test, append-cons}
use oscam_vdr.LinkedList.Iterator.{at_cells, head_obj, next-create, next-at_cells}
use oscam_vdr.LinkedList.Remove.{Removed, ll_iter_remove-Removed}

-- The cells with other objects, and how many have this one.
abbrev pub others : ℕ → List Cell → List Cell
others obj [] = []
others obj (c ∷ cs) = if c.obj == obj then others obj cs else c ∷ others obj cs

abbrev pub holders : ℕ → List Cell → ℕ
holders obj [] = 0
holders obj (c ∷ cs) = (if c.obj == obj then 1 else 0) + holders obj cs

-- What the loop leaves of the list.
abbrev pub Leaves : ℕ → List Cell → Option (ℕ × Llist) → Type 0
Leaves n cells none = ⊥
Leaves n cells (some (m, l)) = (m ≡ n) × IsList l cells

next_locked : (l : Llist) (it : Iter) → l.flag ≡ 0 → ll_iter_next it l ≡ ll_iter_next_nolock it l
unfolding ll_iter_next
next_locked l it h = rw (usable_lock l h) refl

Leaves-eq :
    (m n : ℕ) (xs ys : List Cell) (r : Option (ℕ × Llist))
    → m ≡ n
    → xs ≡ ys
    → Leaves m xs r
    → Leaves n ys r
Leaves-eq m n xs ys r e f h = rw (← e, ← f) h

after_removal :
    (ys : List Cell) (c : Cell) (zs : List Cell) (g : List ℕ) (rounds obj n m : ℕ)
    (cells : List Cell) (r : Option (ℕ × Iter × Llist))
    → Removed ys c zs g r
    → ((it : Iter) (l : Llist)
        → ll_iter_next_nolock it l ≡ some (head_obj zs, at_cells ys zs)
        → IsList l (ys ++ zs)
        → Leaves m cells (remove_loop rounds obj it n l))
    → Leaves m cells (elim r [ none ↦ none | some x ↦ remove_loop rounds obj x.1 n x.2 ])
after_removal ys c zs g rounds obj n m cells none h k = absurd h
after_removal ys c zs g rounds obj n m cells (some (o, it, l)) h k = k it l h.3 h.1

remove_loop-Leaves :
    (rounds obj n : ℕ) (it : Iter) (l : Llist) (ys zs : List Cell)
    → ll_iter_next_nolock it l ≡ some (head_obj zs, at_cells ys zs)
    → IsList l (ys ++ zs)
    → All (λ (c : Cell). c.flag ≡ 0) zs
    → length zs < rounds
    → Leaves (n + holders obj zs) (ys ++ others obj zs) (remove_loop rounds obj it n l)
unfolding remove_loop
remove_loop-Leaves zero obj n it l ys zs e h f b = absurd (omega arith)
remove_loop-Leaves (suc rounds) obj n it l ys [] e h f b =
    rw (next_locked l it h.usable ∙ e, remove_loop) (omega arith, h)
remove_loop-Leaves (suc rounds) obj n it l ys (c ∷ zs) e h f b =
    let (a, s, q) = Seg-split l.node 0 ys (c ∷ zs) h.chain in
    rw (next_locked l it h.usable ∙ e, remove_loop)
      (rw (ne_test c.obj s.2) (elim (Bool-cases (c.obj == obj)) [
        | inr miss ↦ rw miss (
            Leaves-eq (n + holders obj zs) (n + (0 + holders obj zs))
              ((ys ++ (c ∷ [])) ++ others obj zs) (ys ++ (c ∷ others obj zs))
              (remove_loop rounds obj (at_cells ys (c ∷ zs)) n l) (omega arith)
              (append-cons ys c (others obj zs))
              (remove_loop-Leaves rounds obj n (at_cells ys (c ∷ zs)) l (ys ++ (c ∷ [])) zs
                (next-at_cells l ys c zs h)
                (subst (λ (t : List Cell). IsList l t) (sym (append-cons ys c zs)) h) f.1
                (omega arith)))
        | inl hit ↦ rw hit (
            after_removal ys c zs l.garbage rounds obj (n + 1) (n + (1 + holders obj zs))
              (ys ++ others obj zs) (ll_iter_remove (at_cells ys (c ∷ zs)) l)
              (ll_iter_remove-Removed l ys c zs h f.0)
              λ it' l' e' h'.
                Leaves-eq ((n + 1) + holders obj zs) (n + (1 + holders obj zs))
                  (ys ++ others obj zs) (ys ++ others obj zs)
                  (remove_loop rounds obj it' (n + 1) l') (omega arith) refl
                  (remove_loop-Leaves rounds obj (n + 1) it' l' ys zs e' h' f.1 (omega arith)))
      ]))

-- `ll_remove` always ends: it takes every node that holds the object out of a list whose nodes are
-- not flagged, leaves the others in their order, and returns how many it took out.
pub ll_remove-others :
    (l : Llist) (obj : ℕ) (cells : List Cell)
    → IsList l cells
    → All (λ (c : Cell). c.flag ≡ 0) cells
    → Leaves (holders obj cells) (others obj cells) (ll_remove obj l)
unfolding ll_remove
ll_remove-others l obj cells h f =
    Leaves-eq (0 + holders obj cells) (holders obj cells) (others obj cells) (others obj cells)
      (remove_loop (l.count + 1) obj ll_iter_create 0 l) (omega arith) refl
      (remove_loop-Leaves (l.count + 1) obj 0 ll_iter_create l [] cells (next-create l cells h) h f
        (omega (arith, h.counted)))

contains_loop-any :
    (rounds obj : ℕ) (it : Iter) (l : Llist) (ys zs : List Cell)
    → ll_iter_next_nolock it l ≡ some (head_obj zs, at_cells ys zs)
    → IsList l (ys ++ zs)
    → length zs < rounds
    → contains_loop rounds obj it l ≡ some (any (λ (c : Cell). c.obj == obj) zs)
unfolding contains_loop
contains_loop-any zero obj it l ys zs e h b = absurd (omega arith)
contains_loop-any (suc rounds) obj it l ys [] e h b =
    rw (next_locked l it h.usable ∙ e, contains_loop) refl
contains_loop-any (suc rounds) obj it l ys (c ∷ zs) e h b =
    let (a, s, q) = Seg-split l.node 0 ys (c ∷ zs) h.chain in
    rw (next_locked l it h.usable ∙ e, contains_loop)
      (rw (ne_test c.obj s.2) (elim (Bool-cases (c.obj == obj)) [
        | inl hit ↦ rw hit refl
        | inr miss ↦ rw miss (
            contains_loop-any rounds obj (at_cells ys (c ∷ zs)) l (ys ++ (c ∷ [])) zs
              (next-at_cells l ys c zs h)
              (subst (λ (t : List Cell). IsList l t) (sym (append-cons ys c zs)) h) (omega arith))
      ]))

-- `ll_contains` always ends, and says whether some node holds the object.
pub ll_contains-any :
    (l : Llist) (obj : ℕ) (cells : List Cell)
    → IsList l cells
    → obj ≢ 0
    → ll_contains obj l ≡ some (any (λ (c : Cell). c.obj == obj) cells)
unfolding ll_contains
ll_contains-any l obj cells h o = rw (ne_test obj o) (
    contains_loop-any (l.count + 1) obj ll_iter_create l [] cells (next-create l cells h) h
      (omega (arith, h.counted)))
