-- ===== src/LinkedList/Chain.antt =====
-- About the nodes of a list in memory: a list of cells, and how a write changes it.
use oscam_vdr.Base.{
  ℕ, ◌≡◌, ◌≢◌, refl, ap, sym, ◌∙◌, Bool, true, false, ◌||◌, Option, some, List, [], ◌∷◌, ◌++◌, ◌==◌,
  ==_refl, length, ◌⊎◌, inl, inr, arith,
}
use oscam_vdr.LinkedList.{Node, Llist, write, ll_lock}

-- A node with its address.
pub record Cell : Type 0 where
  pub address : ℕ
  pub obj : ℕ
  pub flag : ℕ

abbrev pub has : ℕ → List Cell → Bool
has a [] = false
has a (c ∷ cs) = c.address == a || has a cs

-- The first address of the cells, and the last.
abbrev pub head_or : ℕ → List Cell → ℕ
head_or t [] = t
head_or t (c ∷ cs) = c.address

abbrev pub last_or : ℕ → List Cell → ℕ
last_or d [] = d
last_or d (c ∷ cs) = last_or c.address cs

abbrev pub node_of : Cell → ℕ → Node
node_of c nxt = record { obj = c.obj; nxt = nxt; flag = c.flag }

-- The cells stand in memory at addresses of their own, each leading to the next, the last to `t`.
abbrev pub Seg : (ℕ → Option Node) → ℕ → List Cell → Type 0
Seg node t [] = Unit
Seg node t (c ∷ cs) =
    (node c.address ≡ some (node_of c (head_or t cs)))
    × (c.address ≢ 0)
    × (c.obj ≢ 0)
    × (has c.address cs ≡ false)
    × Seg node t cs

-- None of the first cells is among the second.
abbrev pub Apart : List Cell → List Cell → Type 0
Apart [] ys = Unit
Apart (x ∷ xs) ys = (has x.address ys ≡ false) × Apart xs ys

pub write_self : (node : ℕ → Option Node) (a : ℕ) (n : Node) → write node a n a ≡ some n
write_self node a n = rw (==_refl a) refl

pub write_other :
    (node : ℕ → Option Node) (a b : ℕ) (n : Node) → (a == b) ≡ false → write node a n b ≡ node b
write_other node a b n e = rw e refl

pub has-append : (a : ℕ) (xs ys : List Cell) → has a (xs ++ ys) ≡ (has a xs || has a ys)
has-append a [] ys = refl
has-append a (x ∷ xs) ys = ground (arith, has-append a xs ys)

pub head_or-append : (t : ℕ) (xs ys : List Cell) → head_or t (xs ++ ys) ≡ head_or (head_or t ys) xs
head_or-append t [] ys = refl
head_or-append t (x ∷ xs) ys = refl

pub last_or-snoc : (d : ℕ) (xs : List Cell) (c : Cell) → last_or d (xs ++ (c ∷ [])) ≡ c.address
last_or-snoc d [] c = refl
last_or-snoc d (x ∷ xs) c = last_or-snoc x.address xs c

pub last_or-append :
    (d : ℕ) (xs : List Cell) (y : Cell) (ys : List Cell)
    → last_or d (xs ++ (y ∷ ys)) ≡ last_or d (y ∷ ys)
last_or-append d [] y ys = refl
last_or-append d (x ∷ xs) y ys = last_or-append x.address xs y ys

-- A write elsewhere leaves the cells as they are.
pub Seg-write :
    (node : ℕ → Option Node) (a : ℕ) (n : Node) (t : ℕ) (cs : List Cell)
    → has a cs ≡ false
    → Seg node t cs
    → Seg (write node a n) t cs
Seg-write node a n t [] out s = tt
Seg-write node a n t (c ∷ cs) out s = (
  write_other node a c.address n (ground arith) ∙ s.0,
  s.1,
  s.2,
  s.3,
  Seg-write node a n t cs (ground arith) s.4,
)

pub Seg-append :
    (node : ℕ → Option Node) (t : ℕ) (xs ys : List Cell)
    → Seg node (head_or t ys) xs
    → Seg node t ys
    → Apart xs ys
    → Seg node t (xs ++ ys)
Seg-append node t [] ys s r a = r
Seg-append node t (x ∷ xs) ys s r a = (
  rw (head_or-append t xs ys) s.0,
  s.1,
  s.2,
  has-append x.address xs ys ∙ rw (s.3, a.0) refl,
  Seg-append node t xs ys s.4 r a.1,
)

pub Seg-split :
    (node : ℕ → Option Node) (t : ℕ) (xs ys : List Cell)
    → Seg node t (xs ++ ys)
    → Seg node (head_or t ys) xs × Seg node t ys × Apart xs ys
Seg-split node t [] ys s = (tt, s, tt)
Seg-split node t (x ∷ xs) ys s =
    let (l, r, a) = Seg-split node t xs ys s.4 in
    let out : (has x.address xs || has x.address ys) ≡ false =
      sym (has-append x.address xs ys) ∙ s.3 in
    ((rw (← head_or-append t xs ys) s.0, s.1, s.2, ground arith, l), r, (ground arith, a))

-- A write to the last cell leads it elsewhere.
pub retarget :
    (node : ℕ → Option Node) (t u : ℕ) (ys : List Cell) (c : Cell)
    → Seg node t (ys ++ (c ∷ []))
    → Seg (write node c.address (node_of c u)) u (ys ++ (c ∷ []))
retarget node t u [] c s = (write_self node c.address (node_of c u), s.1, s.2, s.3, tt)
retarget node t u (y ∷ ys) c s =
    let out : (has y.address ys || has y.address (c ∷ [])) ≡ false =
      sym (has-append y.address ys (c ∷ [])) ∙ s.3 in
    (
      write_other node c.address y.address (node_of c u) (ground arith)
          ∙ s.0
          ∙ ap (λ (x : ℕ). some (node_of y x))
              (head_or-append t ys (c ∷ []) ∙ sym (head_or-append u ys (c ∷ []))),
      s.1,
      s.2,
      s.3,
      retarget node t u ys c s.4,
    )

-- What an address among the cells of a list points to.
pub Seg-last :
    (node : ℕ → Option Node) (t : ℕ) (ys : List Cell) (c : Cell)
    → Seg node t (ys ++ (c ∷ []))
    → (node c.address ≡ some (node_of c t)) × (c.address ≢ 0) × (c.obj ≢ 0)
Seg-last node t ys c s = let (l, r, a) = Seg-split node t ys (c ∷ []) s in (r.0, r.1, r.2)

-- The list in memory holds the cells, and can be used.
pub record IsList (l : Llist) (cells : List Cell) : Type 0 where
  pub chain : Seg l.node 0 cells
  pub first : l.initial ≡ head_or 0 cells
  pub final : l.last ≡ last_or 0 cells
  pub counted : l.count ≡ length cells
  pub usable : l.flag ≡ 0

-- Lists by their end.
pub Snoc-cases :
    (cs : List Cell) → (cs ≡ []) ⊎ ((ys : List Cell) × (c : Cell) × (cs ≡ ys ++ (c ∷ [])))
Snoc-cases [] = inl refl
Snoc-cases (c ∷ cs) = elim (Snoc-cases cs) [
  | inl e ↦ inr ([], c, ap (λ (t : List Cell). c ∷ t) e)
  | inr r ↦ inr (c ∷ r.0, r.1, ap (λ (t : List Cell). c ∷ t) r.2)
]

pub Apart-one : (xs : List Cell) (c : Cell) → has c.address xs ≡ false → Apart xs (c ∷ [])
Apart-one [] c h = tt
Apart-one (x ∷ xs) c h = (ground arith, Apart-one xs c (ground arith))

pub last-ne_zero :
    (node : ℕ → Option Node) (t : ℕ) (c : Cell) (cs : List Cell)
    → Seg node t (c ∷ cs)
    → last_or c.address cs ≢ 0
last-ne_zero node t c [] s = s.1
last-ne_zero node t c (d ∷ cs) s = last-ne_zero node t d cs s.4

pub usable_lock : (l : Llist) → l.flag ≡ 0 → ll_lock l ≡ true
usable_lock l h = ground arith

pub ne_test : (a : ℕ) → a ≢ 0 → (a == 0) ≡ false
ne_test a h = ground arith

pub Apart-tail : (xs : List Cell) (c : Cell) (ys : List Cell) → Apart xs (c ∷ ys) → Apart xs ys
Apart-tail [] c ys a = tt
Apart-tail (x ∷ xs) c ys a = (ground (arith, a.0), Apart-tail xs c ys a.1)

-- The first of the second cells is not among the first, and the last of the first not among the
-- second.
pub Apart-head :
    (xs : List Cell) (c : Cell) (ys : List Cell) → Apart xs (c ∷ ys) → has c.address xs ≡ false
Apart-head [] c ys a = refl
Apart-head (x ∷ xs) c ys a = ground (arith, a.0, Apart-head xs c ys a.1)

pub Apart-last :
    (ws : List Cell) (p : Cell) (ys : List Cell)
    → Apart (ws ++ (p ∷ [])) ys
    → has p.address ys ≡ false
Apart-last [] p ys a = a.0
Apart-last (w ∷ ws) p ys a = Apart-last ws p ys a.1

pub head-ne_zero :
    (node : ℕ → Option Node) (t : ℕ) (xs : List Cell) (c : Cell) (ys : List Cell)
    → Seg node t (xs ++ (c ∷ ys))
    → head_or 0 (xs ++ (c ∷ ys)) ≢ 0
head-ne_zero node t [] c ys s = s.1
head-ne_zero node t (x ∷ xs) c ys s = s.1

pub append-cons :
    (ys : List Cell) (c : Cell) (zs : List Cell) → (ys ++ (c ∷ [])) ++ zs ≡ ys ++ (c ∷ zs)
append-cons [] c zs = refl
append-cons (y ∷ ys) c zs = ap (λ (t : List Cell). y ∷ t) (append-cons ys c zs)
