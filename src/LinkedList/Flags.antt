-- ===== src/LinkedList/Flags.antt =====
-- About the flag of a node.
use oscam_vdr.Base.{
  ℕ, ◌+◌, ◌≡◌, ◌≢◌, refl, ap, sym, ◌∙◌, Bool, true, false, ◌||◌, Option, none, some, List, [], ◌∷◌,
  ◌++◌, ◌==◌, nonzero, length-append, arith, u8,
}
use oscam_vdr.LinkedList.{Node, Llist, Iter, write, deref, ll_iter_remove, ll_iter_move_first}
use oscam_vdr.LinkedList.Chain.{
  Cell, has, head_or, node_of, Seg, write_self, write_other, has-append, head_or-append,
  last_or-append, Seg-write, Seg-split, IsList, usable_lock, ne_test,
}
use oscam_vdr.LinkedList.Iterator.{at_cells}

abbrev pub with_flag : ℕ → Cell → Cell
with_flag f c = record c { flag = f }

has-reflag :
    (a f : ℕ) (ys : List Cell) (c : Cell) (zs : List Cell)
    → has a (ys ++ (with_flag f c ∷ zs)) ≡ has a (ys ++ (c ∷ zs))
has-reflag a f [] c zs = refl
has-reflag a f (y ∷ ys) c zs = ap (λ (b : Bool). y.address == a || b) (has-reflag a f ys c zs)

-- Another flag in the node of a cell.
Seg-reflag :
    (node : ℕ → Option Node) (f : ℕ) (ys : List Cell) (c : Cell) (zs : List Cell)
    → Seg node 0 (ys ++ (c ∷ zs))
    → Seg
        (write node c.address (node_of (with_flag f c) (head_or 0 zs)))
        0
        (ys ++ (with_flag f c ∷ zs))
Seg-reflag node f [] c zs s = (
  write_self node c.address (node_of (with_flag f c) (head_or 0 zs)),
  s.1,
  s.2,
  s.3,
  Seg-write node c.address (node_of (with_flag f c) (head_or 0 zs)) 0 zs s.3 s.4,
)
Seg-reflag node f (y ∷ ys) c zs s =
    let out : (has y.address ys || has y.address (c ∷ zs)) ≡ false =
      sym (has-append y.address ys (c ∷ zs)) ∙ s.3 in
    (
      write_other node c.address y.address (node_of (with_flag f c) (head_or 0 zs)) (ground arith)
          ∙ s.0
          ∙ ap (λ (x : ℕ). some (node_of y x))
              (head_or-append 0 ys (c ∷ zs) ∙ sym (head_or-append 0 ys (with_flag f c ∷ zs))),
      s.1,
      s.2,
      has-reflag y.address f ys c zs ∙ s.3,
      Seg-reflag node f ys c zs s.4,
    )

pub IsList-reflag :
    (l : Llist) (f : ℕ) (ys : List Cell) (c : Cell) (zs : List Cell)
    → IsList l (ys ++ (c ∷ zs))
    → IsList
        (record l { node = write l.node c.address (node_of (with_flag f c) (head_or 0 zs)) })
        (ys ++ (with_flag f c ∷ zs))
IsList-reflag l f ys c zs h = record {
  chain = Seg-reflag l.node f ys c zs h.chain;
  first = h.first ∙ head_or-append 0 ys (c ∷ zs) ∙ sym (head_or-append 0 ys (with_flag f c ∷ zs));
  final = h.final ∙ last_or-append 0 ys c zs ∙ sym (last_or-append 0 ys (with_flag f c) zs);
  counted =
      omega (
        arith,
        h.counted,
        length-append {0} ys (c ∷ zs),
        length-append {0} ys (with_flag f c ∷ zs),
      );
  usable = h.usable;
}

-- Nothing was removed or moved: the iterator stands where it was, and the cells are these.
abbrev pub Refused : Iter → List Cell → List ℕ → Option (ℕ × Iter × Llist) → Type 0
Refused it cells garbage none = ⊥
Refused it cells garbage (some (r, it', l)) =
    (r ≡ 0) × (it' ≡ it) × IsList l cells × (l.garbage ≡ garbage)

-- A node whose flag is set is neither removed nor moved: the flag is counted up, and nothing else
-- happens to the list or the iterator.
pub flagged-Refused :
    (l : Llist) (ys : List Cell) (c : Cell) (zs : List Cell)
    → IsList l (ys ++ (c ∷ zs))
    → c.flag ≢ 0
    → Refused
        (at_cells ys (c ∷ zs))
        (ys ++ (with_flag (u8 (c.flag + 1)) c ∷ zs))
        l.garbage
        (ll_iter_remove (at_cells ys (c ∷ zs)) l)
      × Refused
          (at_cells ys (c ∷ zs))
          (ys ++ (with_flag (u8 (c.flag + 1)) c ∷ zs))
          l.garbage
          (ll_iter_move_first (at_cells ys (c ∷ zs)) l)
unfolding ll_iter_remove ll_iter_move_first
flagged-Refused l ys c zs h f =
    let (a, s, q) = Seg-split l.node 0 ys (c ∷ zs) h.chain in
    let set : nonzero c.flag ≡ true = ground arith in
    let kept = IsList-reflag l (u8 (c.flag + 1)) ys c zs h in
    (
      rw (usable_lock l h.usable, ne_test c.address s.1)
          (rw (s.0, deref) (rw set (refl, refl, kept, refl))),
      rw (usable_lock l h.usable, ne_test c.address s.1)
          (rw (s.0, deref) (rw set (refl, refl, kept, refl))),
    )
