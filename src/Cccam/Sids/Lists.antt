-- ===== src/Cccam/Sids/Lists.antt =====
-- What the services of a card are after each change.
use mathlib.Core.Bool.{true≢false}
use oscam_vdr.Base.{
  ◌≡◌, ◌≢◌, refl, ap, sym, ◌∙◌, Bool, true, false, List, [], ◌∷◌, ◌++◌, ◌||◌, if◌then◌else◌,
  Bool-cases, inl, inr, arith,
}
use oscam_vdr.Cccam.Sids.{
  SrvId, CardSids, sid_eq, has_sid, is_sid_blocked, is_good_sid, remove_sids, add_sid_block,
  remove_sid_block, remove_good_sid, add_good_sid,
}

sid_eq_refl : (s : SrvId) → sid_eq s s ≡ true
unfolding sid_eq
sid_eq_refl s = ground arith

sid_eq_sid : (a b : SrvId) → sid_eq a b ≡ true → a.sid ≡ b.sid
unfolding sid_eq
sid_eq_sid a b h = ground arith

has_sid-append :
    (xs ys : List SrvId) (q : SrvId) → has_sid (xs ++ ys) q ≡ (has_sid xs q || has_sid ys q)
unfolding has_sid
has_sid-append [] ys q = refl
has_sid-append (x ∷ xs) ys q = elim (Bool-cases (sid_eq x q)) [
  | inl e ↦ rw e refl
  | inr e ↦ rw e (has_sid-append xs ys q)
]

has_sid-last : (xs : List SrvId) (q : SrvId) → has_sid (xs ++ (q ∷ [])) q ≡ true
unfolding has_sid
has_sid-last [] q = rw (sid_eq_refl q) refl
has_sid-last (x ∷ xs) q = elim (Bool-cases (sid_eq x q)) [
  | inl e ↦ rw e refl
  | inr e ↦ rw e (has_sid-last xs q)
]

has_sid-remove_sids : (xs : List SrvId) (q : SrvId) → has_sid (remove_sids xs q) q ≡ false
unfolding has_sid remove_sids
has_sid-remove_sids [] q = refl
has_sid-remove_sids (x ∷ xs) q = elim (Bool-cases (sid_eq x q)) [
  | inl e ↦ rw e (has_sid-remove_sids xs q)
  | inr e ↦ rw (e, e) (has_sid-remove_sids xs q)
]

false-not : (b : Bool) → b ≢ true → b ≡ false
false-not true h = absurd (h refl)
false-not false h = refl

sid_eq_other : (a s q : SrvId) → q.sid ≢ s.sid → sid_eq a s ≡ true → sid_eq a q ≡ false
sid_eq_other a s q h e = false-not (sid_eq a q) (λ f. h (sym (sid_eq_sid a q f) ∙ sid_eq_sid a s e))

has_sid-remove_other :
    (xs : List SrvId) (s q : SrvId) → q.sid ≢ s.sid → has_sid (remove_sids xs s) q ≡ has_sid xs q
unfolding has_sid remove_sids
has_sid-remove_other [] s q h = refl
has_sid-remove_other (x ∷ xs) s q h = elim (Bool-cases (sid_eq x s)) [
  | inl e ↦ rw (e, sid_eq_other x s q h e) (has_sid-remove_other xs s q h)
  | inr e ↦ rw e (elim (Bool-cases (sid_eq x q)) [
    | inl f ↦ rw f refl
    | inr f ↦ rw f (has_sid-remove_other xs s q h)
  ])
]

has_sid-append_other :
    (xs : List SrvId) (s q : SrvId) → q.sid ≢ s.sid → has_sid (xs ++ (s ∷ [])) q ≡ has_sid xs q
unfolding has_sid
has_sid-append_other [] s q h = rw (false-not (sid_eq s q) (λ e. h (sym (sid_eq_sid s q e)))) refl
has_sid-append_other (x ∷ xs) s q h = elim (Bool-cases (sid_eq x q)) [
  | inl e ↦ rw e refl
  | inr e ↦ rw e (has_sid-append_other xs s q h)
]

-- The answers about one service.
abbrev pub answers : CardSids → SrvId → Bool × Bool
answers card q = (is_sid_blocked card q, is_good_sid card q)

pair : {x y z w : Bool} → x ≡ y → z ≡ w → ◌≡◌ {A = Bool × Bool} (x, z) (y, w)
pair p q = λ i. (p i, q i)

-- A block that is added is found, one that is removed is not found again, and the services that
-- are known as good are what they were.
pub sid_blocks :
    (card : CardSids) (s : SrvId)
    → (is_sid_blocked (add_sid_block card s) s ≡ true)
      × (is_sid_blocked (remove_sid_block card s) s ≡ false)
      × ((add_sid_block card s).goodsids ≡ card.goodsids)
      × ((remove_sid_block card s).goodsids ≡ card.goodsids)
unfolding is_sid_blocked add_sid_block remove_sid_block
sid_blocks card s = elim (Bool-cases (has_sid card.badsids s)) [
  | inl e ↦ rw e (e, has_sid-remove_sids card.badsids s, refl, refl)
  | inr e ↦ rw e (has_sid-last card.badsids s, has_sid-remove_sids card.badsids s, refl, refl)
]

-- A service that was not known as good is good after `add_good_sid`, and no block for it is left.
pub add_good_sid-unblocks :
    (card : CardSids) (s : SrvId)
    → is_good_sid card s ≡ false
    → answers (add_good_sid card s) s ≡ (false, true)
unfolding is_sid_blocked is_good_sid add_good_sid remove_sid_block
add_good_sid-unblocks card s e =
    rw e (pair (has_sid-remove_sids card.badsids s) (has_sid-last card.goodsids s))

-- None of the four changes for one service alters the answers about another service id.
pub sids_other :
    (card : CardSids) (s q : SrvId)
    → q.sid ≢ s.sid
    → (answers (add_sid_block card s) q ≡ answers card q)
      × (answers (remove_sid_block card s) q ≡ answers card q)
      × (answers (remove_good_sid card s) q ≡ answers card q)
      × (answers (add_good_sid card s) q ≡ answers card q)
unfolding is_sid_blocked is_good_sid add_sid_block remove_sid_block remove_good_sid add_good_sid
sids_other card s q h = (
  elim (Bool-cases (has_sid card.badsids s)) [
    | inl e ↦ rw e refl
    | inr e ↦ rw e (pair (has_sid-append_other card.badsids s q h) refl)
  ],
  pair (has_sid-remove_other card.badsids s q h) refl,
  pair refl (has_sid-remove_other card.goodsids s q h),
  elim (Bool-cases (has_sid card.goodsids s)) [
    | inl e ↦ rw e refl
    | inr e ↦
        rw e (
          pair (has_sid-remove_other card.badsids s q h) (has_sid-append_other card.goodsids s q h))
  ],
)

-- No entry of the list stands for the service of an earlier one.
abbrev pub IsApart : List SrvId → Type 0
IsApart [] = Unit
IsApart (s ∷ ss) = (has_sid ss s ≡ false) × IsApart ss

sid_eq_sym : (a b : SrvId) → sid_eq a b ≡ sid_eq b a
unfolding sid_eq
sid_eq_sym a b = ground arith

remove_none :
    (xs : List SrvId) (s q : SrvId) → has_sid xs q ≡ false → has_sid (remove_sids xs s) q ≡ false
unfolding has_sid remove_sids
remove_none [] s q h = refl
remove_none (x ∷ xs) s q h = ground (arith, remove_none xs s q)

remove_sids-IsApart : (xs : List SrvId) (s : SrvId) → IsApart xs → IsApart (remove_sids xs s)
unfolding remove_sids
remove_sids-IsApart [] s h = h
remove_sids-IsApart (x ∷ xs) s h = elim (Bool-cases (sid_eq x s)) [
  | inl e ↦ rw e (remove_sids-IsApart xs s h.1)
  | inr e ↦ rw e (remove_none xs s x h.0, remove_sids-IsApart xs s h.1)
]

last-IsApart :
    (xs : List SrvId) (s : SrvId) → has_sid xs s ≡ false → IsApart xs → IsApart (xs ++ (s ∷ []))
unfolding has_sid
last-IsApart [] s n h = (refl, h)
last-IsApart (x ∷ xs) s n h = elim (Bool-cases (sid_eq x s)) [
  | inl e ↦ absurd (true≢false (ap (λ (t : Bool). if t then true else has_sid xs s) (sym e) ∙ n))
  | inr e ↦
      let n' = ap (λ (t : Bool). if t then true else has_sid xs s) (sym e) ∙ n in
      (has_sid-append xs (s ∷ []) x ∙ rw (h.0, sid_eq_sym s x, e) refl, last-IsApart xs s n' h.1)
]

-- The two lists of a card keep their entries apart through all four changes.
pub sids-IsApart :
    (card : CardSids) (s : SrvId)
    → IsApart card.badsids
    → IsApart card.goodsids
    → IsApart (add_sid_block card s).badsids
      × IsApart (remove_sid_block card s).badsids
      × IsApart (remove_good_sid card s).goodsids
      × IsApart (add_good_sid card s).badsids
      × IsApart (add_good_sid card s).goodsids
unfolding is_sid_blocked is_good_sid add_sid_block remove_sid_block remove_good_sid add_good_sid
sids-IsApart card s b g = (
  elim (Bool-cases (has_sid card.badsids s)) [
    | inl e ↦ rw e b
    | inr e ↦ rw e (last-IsApart card.badsids s e b)
  ],
  remove_sids-IsApart card.badsids s b,
  remove_sids-IsApart card.goodsids s g,
  elim (Bool-cases (has_sid card.goodsids s)) [
    | inl e ↦ rw e b
    | inr e ↦ rw e (remove_sids-IsApart card.badsids s b)
  ],
  elim (Bool-cases (has_sid card.goodsids s)) [
    | inl e ↦ rw e g
    | inr e ↦ rw e (last-IsApart card.goodsids s e g)
  ],
)
