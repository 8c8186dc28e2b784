-- ===== src/LinkedList/Moves.antt =====
-- About `ll_iter_move_first`: the list behind it, and removing the node that was moved.
use mathlib.Core.Path.{subst}
use oscam_vdr.Base.{
  ℕ, ◌≡◌, refl, ap, sym, ◌∙◌, false, Option, none, some, List, [], ◌∷◌, ◌++◌, ◌==◌, ==_refl,
  if◌then◌else◌, length-append, inl, inr, arith,
}
use oscam_vdr.LinkedList.{
  Node, Llist, Iter, write, deref, ll_iter_create, ll_iter_next_nolock, ll_iter_remove,
  ll_iter_move_first,
}
use oscam_vdr.LinkedList.Chain.{
  Cell, has, head_or, last_or, node_of, Seg, Apart, write_self, has-append, head_or-append,
  last_or-snoc, last_or-append, Seg-write, Seg-append, Seg-split, retarget, Seg-last, IsList,
  Snoc-cases, usable_lock, ne_test, Apart-tail, Apart-head, Apart-last, append-cons,
}
use oscam_vdr.LinkedList.Iterator.{at_cells, next-create}
use oscam_vdr.LinkedList.Remove.{last-is-has}
use oscam_vdr.LinkedList.Flags.{with_flag, IsList-reflag, Refused, flagged-Refused}

-- The node was moved to the front, and the iterator starts again.
abbrev pub Moved : Cell → List Cell → List ℕ → Option (ℕ × Iter × Llist) → Type 0
Moved c cells garbage none = ⊥
Moved c cells garbage (some (r, it, l)) =
    (r ≡ 1) × (it ≡ ll_iter_create) × IsList l (with_flag 1 c ∷ cells) × (l.garbage ≡ garbage)

move_head :
    (l : Llist) (c : Cell) (zs : List Cell)
    → IsList l (c ∷ zs)
    → c.flag ≡ 0
    → Moved c zs l.garbage (ll_iter_move_first (at_cells [] (c ∷ zs)) l)
unfolding ll_iter_move_first
move_head l c zs h f =
    let s = h.chain in
    let kept = IsList-reflag l 1 [] c zs h in
    rw (usable_lock l h.usable, ne_test c.address s.1)
      (rw (s.0, deref)
        (rw f (
          refl,
          refl,
          record {
            chain = kept.chain;
            first = refl;
            final = kept.final;
            counted = kept.counted;
            usable = h.usable;
          },
          refl,
        )))

last_moved :
    (p c : Cell) (zs : List Cell) (last : ℕ)
    → last ≡ last_or c.address zs
    → has c.address zs ≡ false
    → (if last == c.address then p.address else last) ≡ last_or p.address zs
last_moved p c [] last e h = rw (e, ==_refl c.address) refl
last_moved p c (z ∷ zs) last e h =
    let n : (last_or z.address zs == c.address) ≡ false =
      let m = last-is-has 0 z zs c.address h in ground arith in
    rw (e, n) refl

module _ (l : Llist) (ws : List Cell) (p c : Cell) (zs : List Cell)
    (h : IsList l (ws ++ (p ∷ c ∷ zs))) where
  -- The memory behind the move of `c`.
  abbrev moved : ℕ → Option Node
  moved =
      write (write l.node p.address (node_of p (head_or 0 zs))) c.address
        (record { obj = c.obj; nxt = l.initial; flag = 1 })

  halves :
      Seg l.node c.address (ws ++ (p ∷ []))
      × Seg l.node 0 (c ∷ zs)
      × Apart (ws ++ (p ∷ [])) (c ∷ zs)
  halves =
      Seg-split l.node 0 (ws ++ (p ∷ [])) (c ∷ zs)
        (subst (λ (t : List Cell). Seg l.node 0 t) (sym (append-cons ws p (c ∷ zs))) h.chain)

  c-out : has c.address (ws ++ (p ∷ zs)) ≡ false
  c-out =
      let (a, s, q) = halves in
      let first = Apart-head (ws ++ (p ∷ [])) c zs q in
      subst (λ (t : List Cell). has c.address t ≡ false) (append-cons ws p zs)
        (has-append c.address (ws ++ (p ∷ [])) zs ∙ rw (first, s.3) refl)

  moved-Seg : Seg moved 0 (with_flag 1 c ∷ (ws ++ (p ∷ zs)))
  moved-Seg =
      let (a, s, q) = halves in
      let inner = write l.node p.address (node_of p (head_or 0 zs)) in
      let mem : Node = record { obj = c.obj; nxt = l.initial; flag = 1 } in
      (
        write_self inner c.address mem
            ∙ ap (λ (x : ℕ). some (node_of (with_flag 1 c) x))
                (h.first ∙ head_or-append 0 ws (p ∷ c ∷ zs) ∙ sym (head_or-append 0 ws (p ∷ zs))),
        s.1,
        s.2,
        c-out,
        Seg-write inner c.address mem 0 (ws ++ (p ∷ zs)) c-out (
            subst (λ (t : List Cell). Seg inner 0 t) (append-cons ws p zs)
              (Seg-append inner 0 (ws ++ (p ∷ [])) zs
                (retarget l.node c.address (head_or 0 zs) ws p a)
                (Seg-write l.node p.address (node_of p (head_or 0 zs)) 0 zs
                  (Apart-last ws p zs (Apart-tail (ws ++ (p ∷ [])) c zs q)) s.4)
                (Apart-tail (ws ++ (p ∷ [])) c zs q))),
      )

  move_middle :
      c.flag ≡ 0
      → Moved c
          (ws ++ (p ∷ zs))
          l.garbage
          (ll_iter_move_first (record { cur = c.address; prv = p.address }) l)
  unfolding ll_iter_move_first
  move_middle f =
      let (a, s, q) = halves in
      let back = Seg-last l.node c.address ws p a in
      rw (usable_lock l h.usable, ne_test c.address s.1)
        (rw (s.0, deref)
          (rw (f, ne_test p.address back.1)
            (rw (back.0, deref)
              (
                refl,
                refl,
                record {
                  chain = moved-Seg;
                  first = refl;
                  final =
                      last_moved p c zs l.last (h.final ∙ last_or-append 0 ws p (c ∷ zs)) s.3
                      ∙ sym (last_or-append c.address ws p zs);
                  counted = omega (
                    arith,
                    h.counted,
                    length-append {0} ws (p ∷ c ∷ zs),
                    length-append {0} ws (p ∷ zs),
                  );
                  usable = h.usable;
                },
                refl,
              ))))

-- Moving the node that an iterator stands at, if its flag is not set, puts it before all others,
-- which keep their order, sets its flag, and resets the iterator.
pub ll_iter_move_first-Moved :
    (l : Llist) (ys : List Cell) (c : Cell) (zs : List Cell)
    → IsList l (ys ++ (c ∷ zs))
    → c.flag ≡ 0
    → Moved c (ys ++ zs) l.garbage (ll_iter_move_first (at_cells ys (c ∷ zs)) l)
ll_iter_move_first-Moved l ys c zs h f = elim (Snoc-cases ys) [
  | inl e ↦ rw e (move_head l c zs (subst (λ (t : List Cell). IsList l (t ++ (c ∷ zs))) e h) f)
  | inr (ws, p, e) ↦
      rw (e, last_or-snoc 0 ws p, append-cons ws p zs)
        (move_middle l ws p c zs
          (subst (λ (t : List Cell). IsList l t) (append-cons ws p (c ∷ zs))
            (subst (λ (t : List Cell). IsList l (t ++ (c ∷ zs))) e h))
          f)
]

-- What removing does to the node that the first step of the iterator leads to.
abbrev pub remove_next : Option (ℕ × Iter × Llist) → Option (ℕ × Iter × Llist)
remove_next none = none
remove_next (some (r, it, l)) = elim (ll_iter_next_nolock it l) [
  | none ↦ none
  | some x ↦ ll_iter_remove x.1 l
]

stuck :
    (c : Cell) (cells : List Cell) (garbage : List ℕ) (r : Option (ℕ × Iter × Llist))
    → Moved c cells garbage r
    → Refused (at_cells [] (c ∷ cells)) (with_flag 2 c ∷ cells) garbage (remove_next r)
stuck c cells garbage none h = absurd h
stuck c cells garbage (some (r, it, l)) h =
    let e : ll_iter_next_nolock it l ≡ some (c.obj, at_cells [] (with_flag 1 c ∷ cells)) =
      ap (λ (i : Iter). ll_iter_next_nolock i l) h.1 ∙ next-create l (with_flag 1 c ∷ cells) h.2 in
    rw (e, remove_next)
      (subst
        (λ (g : List ℕ).
          Refused (at_cells [] (c ∷ cells)) (with_flag 2 c ∷ cells) g
            (ll_iter_remove (at_cells [] (c ∷ cells)) l))
        h.3 (flagged-Refused l [] (with_flag 1 c) cells h.2 (λ z. omega (arith, z))).0)

-- Removing the node that was just moved to the front returns NULL and leaves it in the list, since
-- the move has set its flag.
pub remove-move_first :
    (l : Llist) (ys : List Cell) (c : Cell) (zs : List Cell)
    → IsList l (ys ++ (c ∷ zs))
    → c.flag ≡ 0
    → Refused
        (at_cells [] (c ∷ (ys ++ zs)))
        (with_flag 2 c ∷ (ys ++ zs))
        l.garbage
        (remove_next (ll_iter_move_first (at_cells ys (c ∷ zs)) l))
remove-move_first l ys c zs h f =
    stuck c (ys ++ zs) l.garbage (ll_iter_move_first (at_cells ys (c ∷ zs)) l)
      (ll_iter_move_first-Moved l ys c zs h f)
