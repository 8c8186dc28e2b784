-- ===== src/Server/Cache/Scan.antt =====
-- About the loop over `ecmcache`, and about a write to one entry: what stays in the list.
use oscam_vdr.Base.{
  ℕ, ◌≤◌, ◌≡◌, refl, Bool, true, some, List, [], ◌∷◌, ◌==◌, ltb, Exists, All, Bool-cases, inl, inr,
  arith,
}
use oscam_vdr.Server.Cache.{Ecm, same_bytes, scan, entry_at, put_at}

pub same_bytes-eq : (a b : List ℕ) → same_bytes a b ≡ true → a ≡ b
same_bytes-eq [] [] h = refl
same_bytes-eq [] (y ∷ ys) h = absurd (ground arith)
same_bytes-eq (x ∷ xs) [] h = absurd (ground arith)
same_bytes-eq (x ∷ xs) (y ∷ ys) h = elim (Bool-cases (x == y)) [
  | inl e ↦
      let p : x ≡ y = ground arith in let q : xs ≡ ys = same_bytes-eq xs ys (rw e at h) in rw (p, q)
  | inr e ↦ absurd (ground arith)
]

pub same_bytes_refl : (a : List ℕ) → same_bytes a a ≡ true
same_bytes_refl [] = refl
same_bytes_refl (x ∷ xs) = ground (arith, same_bytes_refl xs)

pub Exists-map :
    (P Q : Ecm → Type 0) (es : List Ecm) → ((e : Ecm) → P e → Q e) → Exists P es → Exists Q es
Exists-map P Q [] f h = elim h [ ]
Exists-map P Q (e ∷ es) f h = elim h [ inl p ↦ inl (f e p) | inr r ↦ inr (Exists-map P Q es f r) ]

-- The entry that the loop stops at is one of the list, in time, and passes the tests.
pub scan-Found :
    (t : ℕ) (test : Ecm → Bool) (es : List Ecm) (e : Ecm)
    → (scan t test es).1 ≡ some e
    → Exists (λ x. (x ≡ e) × (test x ≡ true) × (t ≤ x.time)) es
unfolding scan
scan-Found t test [] e h = absurd (ground arith)
scan-Found t test (x ∷ xs) e h = elim (Bool-cases (ltb x.time t)) [
  | inl old ↦ inr (scan-Found t test xs e (rw old at h))
  | inr new ↦ elim (Bool-cases (test x)) [
    | inl p ↦ let same : some x ≡ some e = rw (new, p) at h in inl (cc, p, ground arith)
    | inr p ↦ inr (scan-Found t test xs e (rw (new, p) at h))
  ]
]

-- The loop stops at some entry where there is one in time that passes the tests.
pub scan-Finds :
    (t : ℕ) (test : Ecm → Bool) (es : List Ecm)
    → Exists (λ x. (test x ≡ true) × (t ≤ x.time)) es
    → (e : Ecm) × ((scan t test es).1 ≡ some e)
unfolding scan
scan-Finds t test [] h = elim h [ ]
scan-Finds t test (x ∷ xs) h = elim (Bool-cases (ltb x.time t)) [
  | inl old ↦ elim h [
    | inl p ↦ absurd (ground (arith, p.1))
    | inr r ↦ rw old (scan-Finds t test xs r)
  ]
  | inr new ↦ elim (Bool-cases (test x)) [
    | inl p ↦ rw (new, p) (x, refl)
    | inr p ↦ elim h [
      | inl q ↦ absurd (ground (arith, q.0))
      | inr r ↦ rw (new, p) (scan-Finds t test xs r)
    ]
  ]
]

-- The loop keeps what is in time.
pub scan-Keeps :
    (P : Ecm → Type 0) (t : ℕ) (test : Ecm → Bool) (es : List Ecm)
    → ((e : Ecm) → P e → t ≤ e.time)
    → Exists P es
    → Exists P (scan t test es).0
unfolding scan
scan-Keeps P t test [] f h = h
scan-Keeps P t test (x ∷ xs) f h = elim (Bool-cases (ltb x.time t)) [
  | inl old ↦ elim h [
    | inl p ↦ absurd (ground (arith, f x p))
    | inr r ↦ rw old (scan-Keeps P t test xs f r)
  ]
  | inr new ↦ elim (Bool-cases (test x)) [
    | inl p ↦ rw (new, p) h
    | inr p ↦ elim h [
      | inl q ↦ rw (new, p) (inl q)
      | inr r ↦ rw (new, p) (inr (scan-Keeps P t test xs f r))
    ]
  ]
]

-- The loop adds nothing.
pub scan-All :
    (P : Ecm → Type 0) (t : ℕ) (test : Ecm → Bool) (es : List Ecm)
    → All P es
    → All P (scan t test es).0
unfolding scan
scan-All P t test [] h = h
scan-All P t test (x ∷ xs) h = elim (Bool-cases (ltb x.time t)) [
  | inl old ↦ rw old (scan-All P t test xs h.1)
  | inr new ↦ elim (Bool-cases (test x)) [
    | inl p ↦ rw (new, p) h
    | inr p ↦ rw (new, p) (h.0, scan-All P t test xs h.1)
  ]
]

pub entry_at-address : (a : ℕ) (es : List Ecm) (e : Ecm) → entry_at a es ≡ some e → e.address ≡ a
unfolding entry_at
entry_at-address a [] e h = absurd (ground arith)
entry_at-address a (x ∷ xs) e h = ground (arith, entry_at-address a xs e)

pub entry_at-Finds :
    (a : ℕ) (es : List Ecm) → Exists (λ x. x.address ≡ a) es → (e : Ecm) × (entry_at a es ≡ some e)
unfolding entry_at
entry_at-Finds a [] h = elim h [ ]
entry_at-Finds a (x ∷ xs) h = elim (Bool-cases (x.address == a)) [
  | inl p ↦ rw p (x, refl)
  | inr p ↦ elim h [ inl q ↦ absurd (ground arith) | inr r ↦ rw p (entry_at-Finds a xs r) ]
]

-- A write keeps a property of some entry, if the entry it replaces leaves it to the new one.
pub put_at-Keeps :
    (P : Ecm → Type 0) (a : ℕ) (e v : Ecm) (es : List Ecm)
    → entry_at a es ≡ some e
    → (P e → P v)
    → Exists P es
    → Exists P (put_at a v es)
unfolding entry_at put_at
put_at-Keeps P a e v [] h f s = s
put_at-Keeps P a e v (x ∷ xs) h f s = elim (Bool-cases (x.address == a)) [
  | inl p ↦
      let found : some x ≡ some e = rw p at h in
      let same : x ≡ e = cc in
      elim s [ inl q ↦ rw p (inl (f (rw same at q))) | inr r ↦ rw p (inr r) ]
  | inr p ↦ elim s [
    | inl q ↦ rw p (inl q)
    | inr r ↦ rw p (inr (put_at-Keeps P a e v xs (rw p at h) f r))
  ]
]

-- After a write the new entry is in the list.
pub put_at-Has :
    (a : ℕ) (e v : Ecm) (es : List Ecm)
    → entry_at a es ≡ some e
    → Exists (λ x. x ≡ v) (put_at a v es)
unfolding entry_at put_at
put_at-Has a e v [] h = absurd (ground arith)
put_at-Has a e v (x ∷ xs) h = elim (Bool-cases (x.address == a)) [
  | inl p ↦ rw p (inl refl)
  | inr p ↦ rw p (inr (put_at-Has a e v xs (rw p at h)))
]

pub put_at-All :
    (P : Ecm → Type 0) (a : ℕ) (v : Ecm) (es : List Ecm) → P v → All P es → All P (put_at a v es)
unfolding put_at
put_at-All P a v [] p h = h
put_at-All P a v (x ∷ xs) p h = elim (Bool-cases (x.address == a)) [
  | inl e ↦ rw e (p, h.1)
  | inr e ↦ rw e (h.0, put_at-All P a v xs p h.1)
]
