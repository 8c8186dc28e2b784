-- ===== src/Convert/Text/Trimmed.antt =====
-- About `trim` and `cs_strncpy`.
use oscam_vdr.Base.{
  ℕ, ◌+◌, ◌-◌, ◌≤◌, ◌<◌, ◌≡◌, refl, ap, ◌∙◌, Bool, false, List, [], ◌∷◌, ◌==◌, if◌then◌else◌,
  length, arith, length-take,
}
use oscam_vdr.Convert.Text.{is_blank, skip_blanks, cut_blanks, drop_front, trim, cs_strncpy}

abbrev pub ends_blank : List ℕ → Bool
ends_blank [] = false
ends_blank (c ∷ []) = is_blank c
ends_blank (c ∷ d ∷ cs) = ends_blank (d ∷ cs)

abbrev pub starts_space : List ℕ → Bool
starts_space [] = false
starts_space (c ∷ cs) = c == 32

glue : ℕ → List ℕ → List ℕ
glue c [] = if is_blank c then [] else c ∷ []
glue c (x ∷ xs) = c ∷ x ∷ xs

cut_blanks-cons : (c : ℕ) (cs : List ℕ) → cut_blanks (c ∷ cs) ≡ glue c (cut_blanks cs)
unfolding cut_blanks glue
cut_blanks-cons c cs = ground arith

glue-ends : (c : ℕ) (xs : List ℕ) → ends_blank xs ≡ false → ends_blank (glue c xs) ≡ false
unfolding glue
glue-ends c [] h = ground arith
glue-ends c (x ∷ xs) h = h

cut_blanks-ends : (cs : List ℕ) → ends_blank (cut_blanks cs) ≡ false
cut_blanks-ends [] = unfold cut_blanks in refl
cut_blanks-ends (c ∷ cs) =
    rw (cut_blanks-cons c cs) (glue-ends c (cut_blanks cs) (cut_blanks-ends cs))

-- Without a blank at the end there is nothing to cut.
cut_blanks-same : (cs : List ℕ) → ends_blank cs ≡ false → cut_blanks cs ≡ cs
unfolding cut_blanks glue
cut_blanks-same [] h = refl
cut_blanks-same (c ∷ []) h = ground arith
cut_blanks-same (c ∷ d ∷ cs) h =
    cut_blanks-cons c (d ∷ cs) ∙ ap (glue c) (cut_blanks-same (d ∷ cs) h)

glue_starts : (c : ℕ) (xs : List ℕ) → (c == 32) ≡ false → starts_space (glue c xs) ≡ false
unfolding glue
glue_starts c [] h = ground arith
glue_starts c (x ∷ xs) h = h

cut_blanks-starts : (cs : List ℕ) → starts_space cs ≡ false → starts_space (cut_blanks cs) ≡ false
cut_blanks-starts [] h = unfold cut_blanks in refl
cut_blanks-starts (c ∷ cs) h = rw (cut_blanks-cons c cs) (glue_starts c (cut_blanks cs) h)

skip_blanks-starts : (cs : List ℕ) → starts_space (skip_blanks cs) ≡ false
unfolding skip_blanks
skip_blanks-starts [] = refl
skip_blanks-starts (c ∷ cs) = ground (arith, skip_blanks-starts cs)

drop_front-starts : (cs : List ℕ) → starts_space (drop_front cs) ≡ false
unfolding drop_front
drop_front-starts [] = refl
drop_front-starts (c ∷ cs) = ground (arith, skip_blanks-starts (c ∷ cs))

drop_front-same : (cs : List ℕ) → starts_space cs ≡ false → drop_front cs ≡ cs
unfolding drop_front
drop_front-same [] h = refl
drop_front-same (c ∷ cs) h = rw h

-- A trimmed text neither starts with a space nor ends with a blank, and trimming it again changes
-- nothing.
pub trim_trimmed :
    (txt : List ℕ)
    → (starts_space (trim txt) ≡ false)
      × (ends_blank (trim txt) ≡ false)
      × (trim (trim txt) ≡ trim txt)
unfolding trim
trim_trimmed txt =
    let s = cut_blanks-starts (drop_front txt) (drop_front-starts txt) in
    let e = cut_blanks-ends (drop_front txt) in
    (
      s,
      e,
      ap cut_blanks (drop_front-same (cut_blanks (drop_front txt)) s)
          ∙ cut_blanks-same (cut_blanks (drop_front txt)) e,
    )

-- The copy of `cs_strncpy` with its closing 0 fits `num` bytes.
pub cs_strncpy_fits :
    (source : List ℕ) (num : ℕ) → 0 < num → length (cs_strncpy source num) + 1 ≤ num
unfolding cs_strncpy
cs_strncpy_fits source num h =
    ground (arith, length-take (num - 1) source, length-take (length source) source)
