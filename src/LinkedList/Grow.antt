-- ===== src/LinkedList/Grow.antt =====
-- About `ll_append` and `ll_prepend`: the cells of the list behind them.
use mathlib.Core.Path.{subst}
use oscam_vdr.Base.{
  ℕ, ◌≡◌, ◌≢◌, refl, sym, ◌∙◌, false, ◌||◌, Option, none, some, List, [], ◌∷◌, ◌++◌, ◌==◌,
  if◌then◌else◌, length-append, inl, inr, arith,
}
use oscam_vdr.LinkedList.{Node, Llist, write, deref, ll_append_nolock, ll_append, ll_prepend}
use oscam_vdr.LinkedList.Chain.{
  Cell, has, head_or, last_or, node_of, Seg, write_self, has-append, head_or-append, last_or-snoc,
  Seg-write, Seg-append, retarget, Seg-last, IsList, Snoc-cases, last-ne_zero, usable_lock, ne_test,
  Apart-one,
}

abbrev pub fresh_cell : ℕ → ℕ → Cell
fresh_cell new obj = record { address = new; obj = obj; flag = 0 }

-- What appending has done to the list.
abbrev pub Appends : ℕ → ℕ → List Cell → Option (ℕ × Llist) → Type 0
Appends new obj cells none = ⊥
Appends new obj cells (some (r, l)) = (r ≡ new) × IsList l (cells ++ (fresh_cell new obj ∷ []))

one_cell :
    (node : ℕ → Option Node) (new obj : ℕ) (t : ℕ)
    → new ≢ 0
    → obj ≢ 0
    → Seg (write node new (node_of (fresh_cell new obj) t)) t (fresh_cell new obj ∷ [])
one_cell node new obj t n o = (write_self node new (node_of (fresh_cell new obj) t), n, o, refl, tt)

head_or-snoc :
    (t u : ℕ) (ys : List Cell) (c : Cell) → head_or t (ys ++ (c ∷ [])) ≡ head_or u (ys ++ (c ∷ []))
head_or-snoc t u [] c = refl
head_or-snoc t u (y ∷ ys) c = refl

pub append_last :
    (l : Llist) (new obj : ℕ) (ys : List Cell) (c : Cell)
    → IsList l (ys ++ (c ∷ []))
    → has new (ys ++ (c ∷ [])) ≡ false
    → new ≢ 0
    → obj ≢ 0
    → Appends new obj (ys ++ (c ∷ [])) (ll_append_nolock new obj l)
unfolding ll_append_nolock
append_last l new obj ys c h out n o =
    let added = write l.node new (node_of (fresh_cell new obj) 0) in
    let cells = ys ++ (c ∷ []) in
    let old = Seg-write l.node new (node_of (fresh_cell new obj) 0) 0 cells out h.chain in
    let at_end = Seg-last added 0 ys c old in
    let last_is : l.last ≡ c.address = h.final ∙ last_or-snoc 0 ys c in
    let outs : (has new ys || has new (c ∷ [])) ≡ false = sym (has-append new ys (c ∷ [])) ∙ out in
    let two =
      Seg-append (write added c.address (node_of c new)) 0 cells (fresh_cell new obj ∷ [])
        (retarget added 0 new ys c old)
        (Seg-write added c.address (node_of c new) 0 (fresh_cell new obj ∷ []) (ground arith)
          (one_cell l.node new obj 0 n o))
        (Apart-one cells (fresh_cell new obj) out) in
    rw (ne_test new n, ne_test obj o, last_is, ne_test c.address at_end.1)
      (rw (at_end.0, deref)
        (
          refl,
          record {
            chain = two;
            first =
                h.first
                ∙ head_or-snoc 0 new ys c
                ∙ sym (head_or-append 0 cells (fresh_cell new obj ∷ []));
            final = sym (last_or-snoc 0 cells (fresh_cell new obj));
            counted = omega (arith, length-append {0} cells (fresh_cell new obj ∷ []), h.counted);
            usable = h.usable;
          },
        ))

append_first :
    (l : Llist) (new obj : ℕ)
    → IsList l []
    → new ≢ 0
    → obj ≢ 0
    → Appends new obj [] (ll_append_nolock new obj l)
unfolding ll_append_nolock
append_first l new obj h n o =
    let last_is : l.last ≡ 0 = h.final in
    rw (ne_test new n, ne_test obj o, last_is)
      (
        refl,
        record {
          chain = one_cell l.node new obj 0 n o;
          first = refl;
          final = refl;
          counted = omega (arith, h.counted);
          usable = h.usable;
        },
      )

-- Appending an object that is not NULL, at an address that the list does not use yet, puts its
-- node behind all others, and returns its address.
pub ll_append-Appends :
    (l : Llist) (new obj : ℕ) (cells : List Cell)
    → IsList l cells
    → has new cells ≡ false
    → new ≢ 0
    → obj ≢ 0
    → Appends new obj cells (ll_append new obj l)
unfolding ll_append
ll_append-Appends l new obj cells h out n o = rw (usable_lock l h.usable) (elim (Snoc-cases cells) [
  | inl e ↦ rw e (append_first l new obj (subst (λ (t : List Cell). IsList l t) e h) n o)
  | inr (ys, c, e) ↦ rw e (
      append_last l new obj ys c (subst (λ (t : List Cell). IsList l t) e h)
        (subst (λ (t : List Cell). has new t ≡ false) e out) n o)
])

behind_last :
    (node : ℕ → Option Node) (cells : List Cell) (new last : ℕ)
    → last ≡ last_or 0 cells
    → Seg node 0 cells
    → (if last == 0 then new else last) ≡ last_or new cells
behind_last node [] new last e s = rw e refl
behind_last node (c ∷ cs) new last e s =
    let n = last-ne_zero node 0 c cs s in rw (e, ne_test (last_or c.address cs) n) refl

-- Prepending puts the node before all others.
pub ll_prepend-IsList :
    (l : Llist) (new obj : ℕ) (cells : List Cell)
    → IsList l cells
    → has new cells ≡ false
    → new ≢ 0
    → obj ≢ 0
    → ((ll_prepend new obj l).0 ≡ new)
      × IsList (ll_prepend new obj l).1 (fresh_cell new obj ∷ cells)
unfolding ll_prepend
ll_prepend-IsList l new obj cells h out n o =
    rw (ne_test new n, ne_test obj o, usable_lock l h.usable, h.first)
      (
        refl,
        record {
          chain = (
            write_self l.node new (node_of (fresh_cell new obj) (head_or 0 cells)),
            n,
            o,
            out,
            Seg-write l.node new (node_of (fresh_cell new obj) (head_or 0 cells)) 0 cells out
                h.chain,
          );
          first = refl;
          final = behind_last l.node cells new l.last h.final h.chain;
          counted = omega (arith, h.counted);
          usable = h.usable;
        },
      )
