-- ===== src/LinkedList/Iterator.antt =====
-- About iterators: where they stand in a list, and what removing and moving their node does.
use mathlib.Core.Path.{subst}
use oscam_vdr.Base.{
  ℕ, zero, suc, ◌<◌, ◌≡◌, ◌≢◌, refl, ap, sym, ◌∙◌, true, false, ◌||◌, some, List, [], ◌∷◌, ◌++◌,
  ◌==◌, nonzero, length, arith,
}
use oscam_vdr.LinkedList.{
  Llist, Iter, deref, ll_iter_create, step_iter, obj_at, ll_iter_next_nolock, walk_to,
}
use oscam_vdr.LinkedList.Chain.{
  Cell, has, head_or, last_or, last_or-snoc, Seg-split, IsList, ne_test, append-cons,
}

-- The iterator at the first of the cells `zs`, behind the cells `ys`.
abbrev pub at_cells : List Cell → List Cell → Iter
at_cells ys zs = record { cur = head_or 0 zs; prv = last_or 0 ys }

abbrev pub head_obj : List Cell → ℕ
head_obj [] = 0
head_obj (c ∷ cs) = c.obj

obj_at_head :
    (l : Llist) (ys zs : List Cell)
    → IsList l (ys ++ zs)
    → obj_at (head_or 0 zs) l ≡ some (head_obj zs)
unfolding obj_at
obj_at_head l ys [] h = refl
obj_at_head l ys (z ∷ zs) h =
    let (a, s, b) = Seg-split l.node 0 ys (z ∷ zs) h.chain in
    rw (ne_test z.address s.1) (rw (s.0, deref) refl)

next_from :
    (it it' : Iter) (l : Llist) (obj : ℕ)
    → step_iter it l ≡ some it'
    → obj_at it'.cur l ≡ some obj
    → ll_iter_next_nolock it l ≡ some (obj, it')
unfolding ll_iter_next_nolock
next_from it it' l obj e o = rw (e, ll_iter_next_nolock) (rw o refl)

step-create :
    (l : Llist) (zs : List Cell) → IsList l zs → step_iter ll_iter_create l ≡ some (at_cells [] zs)
unfolding step_iter
step-create l [] h = let e : nonzero l.initial ≡ false = ap nonzero h.first in rw e refl
step-create l (z ∷ zs) h =
    let n = h.chain.1 in
    let e : nonzero l.initial ≡ true = ground (arith, h.first) in
    rw e (ap (λ (a : ℕ). some (record { cur = a; prv = 0 })) h.first)

-- The first step of an iterator leads to the first cell of the list.
pub next-create :
    (l : Llist) (zs : List Cell)
    → IsList l zs
    → ll_iter_next_nolock ll_iter_create l ≡ some (head_obj zs, at_cells [] zs)
next-create l zs h =
    next_from ll_iter_create (at_cells [] zs) l (head_obj zs) (step-create l zs h)
      (obj_at_head l [] zs h)

nonzero_test : (a : ℕ) → a ≢ 0 → nonzero a ≡ true
nonzero_test a h = ground arith

step-at_cells :
    (l : Llist) (ys : List Cell) (c : Cell) (zs : List Cell)
    → IsList l (ys ++ (c ∷ zs))
    → step_iter (at_cells ys (c ∷ zs)) l ≡ some (at_cells (ys ++ (c ∷ [])) zs)
unfolding step_iter
step-at_cells l ys c zs h =
    let (a, s, b) = Seg-split l.node 0 ys (c ∷ zs) h.chain in
    rw (nonzero_test c.address s.1) (
      rw (s.0, deref)
        (ap (λ (p : ℕ). some (record { cur = head_or 0 zs; prv = p })) (sym (last_or-snoc 0 ys c))))

-- A further step leads to the next cell, or behind the last.
pub next-at_cells :
    (l : Llist) (ys : List Cell) (c : Cell) (zs : List Cell)
    → IsList l (ys ++ (c ∷ zs))
    → ll_iter_next_nolock (at_cells ys (c ∷ zs)) l
      ≡ some (head_obj zs, at_cells (ys ++ (c ∷ [])) zs)
next-at_cells l ys c zs h =
    next_from (at_cells ys (c ∷ zs)) (at_cells (ys ++ (c ∷ [])) zs) l (head_obj zs)
      (step-at_cells l ys c zs h)
      (obj_at_head l (ys ++ (c ∷ [])) zs
        (subst (λ (t : List Cell). IsList l t) (sym (append-cons ys c zs)) h))

has-middle :
    (a : ℕ) (ws : List Cell) (p : Cell) (zs : List Cell)
    → has a (ws ++ (p ∷ zs)) ≡ false
    → (a == p.address) ≡ false
has-middle a [] p zs h = ground arith
has-middle a (w ∷ ws) p zs h = has-middle a ws p zs (ground arith)

-- One round of the walk that stops, and one that goes on.
walk_to-stop :
    (rounds prv obj : ℕ) (it it' : Iter) (l : Llist)
    → ll_iter_next_nolock it l ≡ some (obj, it')
    → (obj == 0 || it'.cur == prv) ≡ true
    → walk_to (suc rounds) prv it l ≡ some it'
unfolding walk_to
walk_to-stop rounds prv obj it it' l e t = rw (e, walk_to) (rw t refl)

walk_to-on :
    (rounds prv obj : ℕ) (it it' : Iter) (l : Llist)
    → ll_iter_next_nolock it l ≡ some (obj, it')
    → (obj == 0 || it'.cur == prv) ≡ false
    → walk_to (suc rounds) prv it l ≡ walk_to rounds prv it' l
unfolding walk_to
walk_to-on rounds prv obj it it' l e t = rw (e, walk_to) (rw t refl)

-- The walk ends at the cell `p` that it looks for.
walk_to-at_cells :
    (rounds : ℕ) (l : Llist) (ys : List Cell) (c : Cell) (ws : List Cell) (p : Cell)
    (zs : List Cell)
    → IsList l (ys ++ (c ∷ (ws ++ (p ∷ zs))))
    → length ws < rounds
    → walk_to rounds p.address (at_cells ys (c ∷ (ws ++ (p ∷ zs)))) l
      ≡ some (at_cells (ys ++ (c ∷ ws)) (p ∷ zs))
walk_to-at_cells zero l ys c ws p zs h b = absurd (omega arith)
walk_to-at_cells (suc rounds) l ys c [] p zs h b =
    walk_to-stop rounds p.address p.obj (at_cells ys (c ∷ p ∷ zs))
      (at_cells (ys ++ (c ∷ [])) (p ∷ zs)) l (next-at_cells l ys c (p ∷ zs) h) (ground arith)
walk_to-at_cells (suc rounds) l ys c (w ∷ ws) p zs h b =
    let (a, s, q) = Seg-split l.node 0 ys (c ∷ w ∷ (ws ++ (p ∷ zs))) h.chain in
    let r = s.4 in
    walk_to-on rounds p.address w.obj (at_cells ys (c ∷ w ∷ (ws ++ (p ∷ zs))))
      (at_cells (ys ++ (c ∷ [])) (w ∷ (ws ++ (p ∷ zs)))) l
      (next-at_cells l ys c (w ∷ (ws ++ (p ∷ zs))) h)
      (rw (ne_test w.obj r.2, has-middle w.address ws p zs r.3) refl)
    ∙ walk_to-at_cells rounds l (ys ++ (c ∷ [])) w ws p zs
        (subst (λ (t : List Cell). IsList l t) (sym (append-cons ys c (w ∷ (ws ++ (p ∷ zs))))) h)
        (omega arith)
    ∙ ap (λ (t : List Cell). some (at_cells t (p ∷ zs))) (append-cons ys c (w ∷ ws))

-- The walk from the start of the list back to the cell `p`.
pub walk_to-create :
    (l : Llist) (rounds : ℕ) (ws : List Cell) (p : Cell) (zs : List Cell)
    → IsList l (ws ++ (p ∷ zs))
    → length ws < rounds
    → walk_to rounds p.address ll_iter_create l ≡ some (at_cells ws (p ∷ zs))
walk_to-create l zero ws p zs h b = absurd (omega arith)
walk_to-create l (suc rounds) [] p zs h b =
    walk_to-stop rounds p.address p.obj ll_iter_create (at_cells [] (p ∷ zs)) l
      (next-create l (p ∷ zs) h) (ground arith)
walk_to-create l (suc rounds) (w ∷ ws) p zs h b =
    let r = h.chain in
    walk_to-on rounds p.address w.obj ll_iter_create (at_cells [] (w ∷ (ws ++ (p ∷ zs)))) l
      (next-create l (w ∷ (ws ++ (p ∷ zs))) h)
      (rw (ne_test w.obj r.2, has-middle w.address ws p zs r.3) refl)
    ∙ walk_to-at_cells rounds l [] w ws p zs h (omega arith)
