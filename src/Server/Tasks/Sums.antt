-- ===== src/Server/Tasks/Sums.antt =====
-- About the check sums of a control word.
use oscam_vdr.Base.{
  ℕ, ◌+◌, ◌%◌, ◌≡◌, refl, Bool, true, false, List, ◌∷◌, ◌==◌, Bool-cases, ◌⊎◌, inl, inr, arith,
}
use oscam_vdr.Server.{Request, e_rdr_notfound, e2_wrong_chksum}
use oscam_vdr.Server.Tasks.Answers.{sum_of, mend, mend_request}

-- Every fourth byte is the low byte of the sum of the three before it.
abbrev pub HasSums : List ℕ → Type 0
HasSums (a ∷ b ∷ c ∷ d ∷ rest) = (d ≡ (a + b + c) % 256) × HasSums rest
HasSums cw = Unit

-- Every fourth byte is replaced by the sum, and the others stay.
abbrev pub with_sums : List ℕ → List ℕ
with_sums (a ∷ b ∷ c ∷ d ∷ rest) = a ∷ b ∷ c ∷ (a + b + c) % 256 ∷ with_sums rest
with_sums cw = cw

with_sums-HasSums : (cw : List ℕ) → HasSums (with_sums cw)
with_sums-HasSums (a ∷ b ∷ c ∷ d ∷ rest) = (refl, with_sums-HasSums rest)
with_sums-HasSums _ = tt

-- Without `dropbadcws` every sum is put right.
mend-with_sums : (cw : List ℕ) → mend false cw ≡ (with_sums cw, true)
unfolding mend
mend-with_sums (a ∷ b ∷ c ∷ d ∷ rest) =
    let ih = mend-with_sums rest in
    elim (Bool-cases (d == sum_of a b c)) [
      | inl e ↦ let q : d ≡ sum_of a b c = ground arith in rw (e, ih, mend) (rw q refl)
      | inr e ↦ rw (e, ih, mend) refl
    ]
mend-with_sums _ = refl

-- Sums that are right stay.
pub mend_kept : (dropbadcws : Bool) (cw : List ℕ) → HasSums cw → mend dropbadcws cw ≡ (cw, true)
unfolding mend
mend_kept dropbadcws (a ∷ b ∷ c ∷ d ∷ rest) (h, hs) =
    let e : (d == sum_of a b c) ≡ true = ground arith in
    let ih = mend_kept dropbadcws rest hs in rw (e, ih, mend) refl
mend_kept dropbadcws _ h = refl

-- With `dropbadcws` a wrong sum ends the loop, and no byte is changed.
mend_dropped : (cw : List ℕ) → ¬ HasSums cw → mend true cw ≡ (cw, false)
unfolding mend
mend_dropped (a ∷ b ∷ c ∷ d ∷ rest) n = elim (Bool-cases (d == sum_of a b c)) [
  | inl e ↦ let ih = mend_dropped rest λ h. n (ground arith, h) in rw (e, ih, mend) refl
  | inr e ↦ rw (e, mend) refl
]
mend_dropped _ n = absurd (n tt)

HasSums-cases : (cw : List ℕ) → HasSums cw ⊎ (¬ HasSums cw)
HasSums-cases (a ∷ b ∷ c ∷ d ∷ rest) = elim (Bool-cases (d == sum_of a b c)) [
  | inr e ↦ inr λ h. let q : d ≡ sum_of a b c = h.0 in ground arith
  | inl e ↦ elim (HasSums-cases rest) [ inl h ↦ inl (ground arith, h) | inr n ↦ inr λ h. n h.1 ]
]
HasSums-cases _ = inl tt

-- A reader's answer goes on unchanged if every fourth byte of its control word is the low byte of
-- the sum of the three before it. If not, then with `dropbadcws` it becomes not found, for the
-- reason of a wrong sum, and keeps its control word; without, these bytes are replaced by their
-- sums, which are then right, and nothing else changes.
pub mend_request-HasSums :
    (dropbadcws : Bool) (er : Request)
    → (HasSums er.cw × (mend_request dropbadcws er ≡ er))
      ⊎ ((¬ HasSums er.cw)
          × (((dropbadcws ≡ true)
                × (mend_request dropbadcws er
                    ≡ record er { rc = e_rdr_notfound; rc_ex = e2_wrong_chksum }))
              ⊎ ((dropbadcws ≡ false)
                  × (mend_request dropbadcws er ≡ record er { cw = with_sums er.cw })
                  × HasSums (with_sums er.cw))))
unfolding mend_request
mend_request-HasSums dropbadcws er = elim (HasSums-cases er.cw) [
  | inl h ↦ inl (h, rw (mend_kept dropbadcws er.cw h, mend_request) refl)
  | inr n ↦ inr (
    n,
    elim (Bool-cases dropbadcws) [
      | inl d ↦ inl (d, rw (d, mend_dropped er.cw n, mend_request) refl)
      | inr d ↦ inr (d, rw (d, mend-with_sums er.cw, mend_request) refl, with_sums-HasSums er.cw)
    ],
  )
]
