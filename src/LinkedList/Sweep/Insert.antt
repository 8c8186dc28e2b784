-- ===== src/LinkedList/Sweep/Insert.antt =====
-- About `ll_iter_insert`.
use mathlib.Core.Path.{subst}
use oscam_vdr.Base.{
  ℕ, ◌≡◌, ◌≢◌, sym, ◌∙◌, false, ◌||◌, Option, none, some, List, [], ◌∷◌, ◌++◌, ◌==◌, length-append,
  arith,
}
use oscam_vdr.LinkedList.{Llist, write, deref, ll_append_nolock}
use oscam_vdr.LinkedList.Chain.{
  Cell, has, node_of, Seg, Apart, write_self, write_other, has-append, head_or-append,
  last_or-append, Seg-write, Seg-append, Seg-split, retarget, Seg-last, IsList, usable_lock,
  ne_test, Apart-last, append-cons,
}
use oscam_vdr.LinkedList.Grow.{fresh_cell, Appends, append_last}
use oscam_vdr.LinkedList.Iterator.{at_cells}
use oscam_vdr.LinkedList.Sweep.{list_of, ll_iter_insert}

abbrev pub Holds : List Cell → Option Llist → Type 0
Holds cells none = ⊥
Holds cells (some l) = IsList l cells

list_of-Holds :
    (new obj : ℕ) (cells : List Cell) (r : Option (ℕ × Llist))
    → Appends new obj cells r
    → Holds (cells ++ (fresh_cell new obj ∷ [])) (list_of r)
list_of-Holds new obj cells none h = h
list_of-Holds new obj cells (some (a, l)) h = h.1

has-last :
    (a : ℕ) (ys : List Cell) (c : Cell) → has a (ys ++ (c ∷ [])) ≡ false → (c.address == a) ≡ false
has-last a [] c h = ground arith
has-last a (y ∷ ys) c h = has-last a ys c (ground arith)

Apart-cons :
    (xs : List Cell) (c : Cell) (ys : List Cell)
    → has c.address xs ≡ false
    → Apart xs ys
    → Apart xs (c ∷ ys)
Apart-cons [] c ys h a = tt
Apart-cons (x ∷ xs) c ys h a = (ground (arith, a.0), Apart-cons xs c ys (ground arith) a.1)

-- The last cell of all leads the new one, which is appended.
insert_last :
    (l : Llist) (new obj : ℕ) (ys : List Cell) (c : Cell)
    → IsList l (ys ++ (c ∷ []))
    → has new (ys ++ (c ∷ [])) ≡ false
    → new ≢ 0
    → obj ≢ 0
    → Holds
        ((ys ++ (c ∷ [])) ++ (fresh_cell new obj ∷ []))
        (ll_iter_insert new obj (at_cells ys (c ∷ [])) l)
unfolding ll_iter_insert
insert_last l new obj ys c h out n o =
    let (a, s, q) = Seg-split l.node 0 ys (c ∷ []) h.chain in
    rw (ne_test obj o, usable_lock l h.usable, ne_test c.address s.1)
      (rw (s.0, deref)
        (list_of-Holds new obj (ys ++ (c ∷ [])) (ll_append_nolock new obj l)
          (append_last l new obj ys c h out n o)))

insert_middle :
    (l : Llist) (new obj : ℕ) (ys : List Cell) (c z : Cell) (zs : List Cell)
    → IsList l (ys ++ (c ∷ z ∷ zs))
    → has new (ys ++ (c ∷ z ∷ zs)) ≡ false
    → new ≢ 0
    → obj ≢ 0
    → Holds
        ((ys ++ (c ∷ [])) ++ (fresh_cell new obj ∷ z ∷ zs))
        (ll_iter_insert new obj (at_cells ys (c ∷ z ∷ zs)) l)
unfolding ll_iter_insert
insert_middle l new obj ys c z zs h out n o =
    let e = append-cons ys c (z ∷ zs) in
    let (a, s, q) =
      Seg-split l.node 0 (ys ++ (c ∷ [])) (z ∷ zs)
        (subst (λ (t : List Cell). Seg l.node 0 t) (sym e) h.chain) in
    let back = Seg-last l.node z.address ys c a in
    let fresh = node_of (fresh_cell new obj) z.address in
    let outs : (has new (ys ++ (c ∷ [])) || has new (z ∷ zs)) ≡ false =
      sym (has-append new (ys ++ (c ∷ [])) (z ∷ zs))
      ∙ subst (λ (t : List Cell). has new t ≡ false) (sym e) out in
    let out_left : has new (ys ++ (c ∷ [])) ≡ false = ground arith in
    let out_right : has new (z ∷ zs) ≡ false = ground arith in
    let c_out = Apart-last ys c (z ∷ zs) q in
    let in_place =
      Seg-write (write l.node new fresh) c.address (node_of c new) 0 (z ∷ zs) c_out
        (Seg-write l.node new fresh 0 (z ∷ zs) out_right s) in
    let c_ne_new : (c.address == new) ≡ false = has-last new ys c out_left in
    rw (ne_test obj o, usable_lock l h.usable, ne_test c.address back.1)
      (rw (back.0, deref)
        (rw (ne_test z.address s.1, ne_test new n)
          (record {
            chain =
                Seg-append (write (write l.node new fresh) c.address (node_of c new)) 0
                  (ys ++ (c ∷ [])) (fresh_cell new obj ∷ z ∷ zs)
                  (retarget (write l.node new fresh) z.address new ys c
                    (Seg-write l.node new fresh z.address (ys ++ (c ∷ [])) out_left a))
                  (
                    write_other (write l.node new fresh) c.address new (node_of c new) c_ne_new
                        ∙ write_self l.node new fresh,
                    n,
                    o,
                    out_right,
                    in_place,
                  )
                  (Apart-cons (ys ++ (c ∷ [])) (fresh_cell new obj) (z ∷ zs) out_left q);
            first =
                h.first
                ∙ head_or-append 0 ys (c ∷ z ∷ zs)
                ∙ sym (
                    head_or-append 0 (ys ++ (c ∷ [])) (fresh_cell new obj ∷ z ∷ zs)
                    ∙ head_or-append new ys (c ∷ []));
            final =
                h.final
                ∙ last_or-append 0 ys c (z ∷ zs)
                ∙ sym (last_or-append 0 (ys ++ (c ∷ [])) (fresh_cell new obj) (z ∷ zs));
            counted = omega (
              arith,
              h.counted,
              length-append {0} ys (c ∷ z ∷ zs),
              length-append {0} (ys ++ (c ∷ [])) (fresh_cell new obj ∷ z ∷ zs),
              length-append {0} ys (c ∷ []),
            );
            usable = h.usable;
          })))

-- Inserting at a node, at an address that the list does not use yet, puts the new node right
-- behind it.
pub ll_iter_insert-Holds :
    (l : Llist) (new obj : ℕ) (ys : List Cell) (c : Cell) (zs : List Cell)
    → IsList l (ys ++ (c ∷ zs))
    → has new (ys ++ (c ∷ zs)) ≡ false
    → new ≢ 0
    → obj ≢ 0
    → Holds
        ((ys ++ (c ∷ [])) ++ (fresh_cell new obj ∷ zs))
        (ll_iter_insert new obj (at_cells ys (c ∷ zs)) l)
ll_iter_insert-Holds l new obj ys c [] = insert_last l new obj ys c
ll_iter_insert-Holds l new obj ys c (z ∷ zs) = insert_middle l new obj ys c z zs
