-- ===== src/LinkedList/Remove.antt =====
-- About `ll_iter_remove`: what is left of the list, and where the iterator stands.
use mathlib.Core.Path.{subst}
use oscam_vdr.Base.{
  ℕ, ◌+◌, ◌-◌, ◌≡◌, ◌≢◌, refl, ap, sym, ◌∙◌, false, Option, none, some, List, [], ◌∷◌, ◌++◌, ◌==◌,
  ==_refl, if◌then◌else◌, length-append, inl, inr, arith,
}
use oscam_vdr.LinkedList.{
  Node, Llist, Iter, write, deref, ll_iter_create, ll_iter_next_nolock, walk_to, unlink,
  ll_iter_remove,
}
use oscam_vdr.LinkedList.Chain.{
  Cell, has, head_or, last_or, node_of, Seg, Apart, head_or-append, last_or-snoc, last_or-append,
  Seg-write, Seg-append, Seg-split, retarget, Seg-last, IsList, Snoc-cases, usable_lock, ne_test,
  Apart-tail, Apart-head, Apart-last, head-ne_zero, append-cons,
}
use oscam_vdr.LinkedList.Iterator.{at_cells, head_obj, next-create, next-at_cells, walk_to-create}

-- The node of a cell was removed: its object and the iterator, the cells left, and the garbage.
abbrev pub Removes : Cell → Iter → List Cell → List ℕ → Option (ℕ × Iter × Llist) → Type 0
Removes c it cells garbage none = ⊥
Removes c it cells garbage (some (obj, it', l)) =
    (obj ≡ c.obj) × (it' ≡ it) × IsList l cells × (l.garbage ≡ c.address ∷ garbage)

pub last-is-has :
    (d : ℕ) (z : Cell) (zs : List Cell) (a : ℕ)
    → has a (z ∷ zs) ≡ false
    → (a == last_or z.address zs) ≡ false
last-is-has d z [] a h = ground arith
last-is-has d z (y ∷ zs) a h = last-is-has d y zs a (ground arith)

-- The last node behind the removal of the first.
last_behind_first :
    (node : ℕ → Option Node) (c : Cell) (zs : List Cell) (last : ℕ)
    → last ≡ last_or c.address zs
    → Seg node 0 (c ∷ zs)
    → (if head_or 0 zs == 0 then 0 else if c.address == last then 0 else last) ≡ last_or 0 zs
last_behind_first node c [] last e s = refl
last_behind_first node c (z ∷ zs) last e s =
    rw (ne_test z.address s.4.1, e, last-is-has 0 z zs c.address s.3) refl

remove_first :
    (l : Llist) (c : Cell) (zs : List Cell)
    → IsList l (c ∷ zs)
    → c.flag ≡ 0
    → Removes c ll_iter_create zs l.garbage (ll_iter_remove (at_cells [] (c ∷ zs)) l)
unfolding ll_iter_remove unlink
remove_first l c zs h f =
    let s = h.chain in
    rw (usable_lock l h.usable, ne_test c.address s.1)
      (rw (s.0, deref)
        (rw f (
          refl,
          refl,
          record {
            chain =
                Seg-write l.node c.address (record { obj = c.obj; nxt = head_or 0 zs; flag = 1 }) 0
                  zs s.3 s.4;
            first = refl;
            final = last_behind_first l.node c zs l.last h.final s;
            counted = omega (arith, h.counted);
            usable = h.usable;
          },
          refl,
        )))

choose_last :
    (p c : Cell) (zs : List Cell) (last : ℕ)
    → last ≡ last_or c.address zs
    → has c.address zs ≡ false
    → (if c.address == last then p.address else last) ≡ last_or p.address zs
choose_last p c [] last e h = rw (e, ==_refl c.address) refl
choose_last p c (z ∷ zs) last e h = rw (e, last-is-has 0 z zs c.address h) refl

module _ (l : Llist) (ws : List Cell) (p c : Cell) (zs : List Cell)
    (h : IsList l (ws ++ (p ∷ c ∷ zs))) where
  -- The memory behind the removal of `c`.
  abbrev spliced : ℕ → Option Node
  spliced =
      write (write l.node c.address (record { obj = c.obj; nxt = head_or 0 zs; flag = 1 }))
        p.address (node_of p (head_or 0 zs))

  around :
      Seg l.node c.address (ws ++ (p ∷ []))
      × Seg l.node 0 (c ∷ zs)
      × Apart (ws ++ (p ∷ [])) (c ∷ zs)
  around =
      Seg-split l.node 0 (ws ++ (p ∷ [])) (c ∷ zs)
        (subst (λ (t : List Cell). Seg l.node 0 t) (sym (append-cons ws p (c ∷ zs))) h.chain)

  spliced-Seg : Seg spliced 0 (ws ++ (p ∷ zs))
  spliced-Seg =
      let (a, s, q) = around in
      let mem : Node = record { obj = c.obj; nxt = head_or 0 zs; flag = 1 } in
      subst (λ (t : List Cell). Seg spliced 0 t) (append-cons ws p zs)
        (Seg-append spliced 0 (ws ++ (p ∷ [])) zs
          (retarget (write l.node c.address mem) c.address (head_or 0 zs) ws p (
            Seg-write l.node c.address mem c.address (ws ++ (p ∷ []))
              (Apart-head (ws ++ (p ∷ [])) c zs q) a))
          (Seg-write (write l.node c.address mem) p.address (node_of p (head_or 0 zs)) 0 zs
            (Apart-last ws p zs (Apart-tail (ws ++ (p ∷ [])) c zs q))
            (Seg-write l.node c.address mem 0 zs s.3 s.4))
          (Apart-tail (ws ++ (p ∷ [])) c zs q))

  p-ne-c : (c.address == p.address) ≡ false
  p-ne-c = let (a, s, q) = around in ground (arith, Apart-last ws p (c ∷ zs) q)

  spliced_last : (if c.address == l.last then p.address else l.last) ≡ last_or 0 (ws ++ (p ∷ zs))
  spliced_last =
      let (a, s, q) = around in
      choose_last p c zs l.last (h.final ∙ last_or-append 0 ws p (c ∷ zs)) s.3
      ∙ sym (last_or-append 0 ws p zs)

  abbrev unlinked : Llist
  unlinked = record l {
    node = spliced;
    last = if c.address == l.last then p.address else l.last;
    count = l.count - 1;
  }

  initial-ne_zero : l.initial ≢ 0
  initial-ne_zero e = head-ne_zero l.node 0 ws p (c ∷ zs) h.chain (sym h.first ∙ e)

  unlinked-IsList : IsList unlinked (ws ++ (p ∷ zs))
  unlinked-IsList = record {
    chain = spliced-Seg;
    first = h.first ∙ head_or-append 0 ws (p ∷ c ∷ zs) ∙ sym (head_or-append 0 ws (p ∷ zs));
    final = spliced_last;
    counted =
        omega (arith, h.counted, length-append {0} ws (p ∷ c ∷ zs), length-append {0} ws (p ∷ zs));
    usable = h.usable;
  }

  walked : walk_to (l.count + 1) p.address ll_iter_create unlinked ≡ some (at_cells ws (p ∷ zs))
  walked =
      walk_to-create unlinked (l.count + 1) ws p zs unlinked-IsList
        (omega (arith, h.counted, length-append {0} ws (p ∷ c ∷ zs)))

  -- The node is unlinked, and the iterator walks back to the cell before it.
  remove_middle :
      c.flag ≡ 0
      → Removes c
          (at_cells ws (p ∷ zs))
          (ws ++ (p ∷ zs))
          l.garbage
          (ll_iter_remove (record { cur = c.address; prv = p.address }) l)
  unfolding ll_iter_remove unlink
  remove_middle f =
      let (a, s, q) = around in
      let back = Seg-last l.node c.address ws p a in
      let kept =
        Seg-last (write l.node c.address (record { obj = c.obj; nxt = head_or 0 zs; flag = 1 }))
          c.address ws p
          (Seg-write l.node c.address (record { obj = c.obj; nxt = head_or 0 zs; flag = 1 })
            c.address (ws ++ (p ∷ [])) (Apart-head (ws ++ (p ∷ [])) c zs q) a) in
      rw (usable_lock l h.usable, ne_test c.address s.1)
        (rw (s.0, deref)
          (rw (f, ne_test p.address back.1)
            (rw (kept.0, deref)
              (rw (ne_test p.address back.1, ne_test l.initial initial-ne_zero)
                (rw walked (
                  rw (ne_test l.initial initial-ne_zero) (
                    refl,
                    refl,
                    record {
                      chain = unlinked-IsList.chain;
                      first = unlinked-IsList.first;
                      final = unlinked-IsList.final;
                      counted = unlinked-IsList.counted;
                      usable = h.usable;
                    },
                    refl,
                  )))))))

-- The outcome of removing `c` from between `ys` and `zs`: its object, a list without it, its node
-- among the garbage, and an iterator whose next step leads to what followed it.
abbrev pub Removed : List Cell → Cell → List Cell → List ℕ → Option (ℕ × Iter × Llist) → Type 0
Removed ys c zs garbage none = ⊥
Removed ys c zs garbage (some (obj, it, l)) =
    (obj ≡ c.obj)
    × IsList l (ys ++ zs)
    × (l.garbage ≡ c.address ∷ garbage)
    × (ll_iter_next_nolock it l ≡ some (head_obj zs, at_cells ys zs))

Removed-first :
    (c : Cell) (zs : List Cell) (garbage : List ℕ) (r : Option (ℕ × Iter × Llist))
    → Removes c ll_iter_create zs garbage r
    → Removed [] c zs garbage r
Removed-first c zs garbage none h = h
Removed-first c zs garbage (some (obj, it, l)) h =
    (h.0, h.2, h.3, ap (λ (i : Iter). ll_iter_next_nolock i l) h.1 ∙ next-create l zs h.2)

Removed-middle :
    (ws : List Cell) (p c : Cell) (zs : List Cell) (garbage : List ℕ)
    (r : Option (ℕ × Iter × Llist))
    → Removes c (at_cells ws (p ∷ zs)) (ws ++ (p ∷ zs)) garbage r
    → Removed (ws ++ (p ∷ [])) c zs garbage r
Removed-middle ws p c zs garbage none h = h
Removed-middle ws p c zs garbage (some (obj, it, l)) h = (
  h.0,
  subst (λ (t : List Cell). IsList l t) (sym (append-cons ws p zs)) h.2,
  h.3,
  ap (λ (i : Iter). ll_iter_next_nolock i l) h.1 ∙ next-at_cells l ws p zs h.2,
)

-- Removing the node that an iterator stands at, if its flag is not set, takes it out of the list
-- and into the garbage, and the iterator goes on with the node that followed it.
pub ll_iter_remove-Removed :
    (l : Llist) (ys : List Cell) (c : Cell) (zs : List Cell)
    → IsList l (ys ++ (c ∷ zs))
    → c.flag ≡ 0
    → Removed ys c zs l.garbage (ll_iter_remove (at_cells ys (c ∷ zs)) l)
ll_iter_remove-Removed l ys c zs h f = elim (Snoc-cases ys) [
  | inl e ↦ rw e (
      Removed-first c zs l.garbage (ll_iter_remove (at_cells [] (c ∷ zs)) l)
        (remove_first l c zs (subst (λ (t : List Cell). IsList l (t ++ (c ∷ zs))) e h) f))
  | inr (ws, p, e) ↦
      rw (e, last_or-snoc 0 ws p)
        (Removed-middle ws p c zs l.garbage
          (ll_iter_remove (record { cur = c.address; prv = p.address }) l)
          (remove_middle l ws p c zs
            (subst (λ (t : List Cell). IsList l t) (append-cons ws p (c ∷ zs))
              (subst (λ (t : List Cell). IsList l (t ++ (c ∷ zs))) e h))
            f))
]
