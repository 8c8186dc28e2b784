-- ===== src/Convert/Text.antt =====
-- `trim` and `cs_strncpy` of oscam-simples.c.
pub mod Trimmed
use oscam_vdr.Base.{
  ℕ, zero, suc, ◌+◌, ◌-◌, Bool, true, false, ◌&&◌, ◌||◌, List, [], ◌∷◌, ◌==◌, ltb, if◌then◌else◌,
  length, take,
}

-- `' '`, `'\t'`, `'\n'` and `'\r'`.
abbrev pub is_blank : ℕ → Bool
is_blank c = c == 32 || (c == 9 || (c == 10 || c == 13))

abbrev pub is_empty : List ℕ → Bool
is_empty [] = true
is_empty (c ∷ cs) = false

-- The text from the first byte that is not blank.
unfoldable pub skip_blanks : List ℕ → List ℕ
skip_blanks [] = []
skip_blanks (c ∷ cs) = if is_blank c then skip_blanks cs else c ∷ cs

-- The blanks at the end are cut off, the last first.
unfoldable pub cut_blanks : List ℕ → List ℕ
cut_blanks [] = []
cut_blanks (c ∷ cs) =
    let rest = cut_blanks cs in if is_empty rest && is_blank c then [] else c ∷ rest

-- Blanks in front are dropped only where the first byte is a space.
unfoldable pub drop_front : List ℕ → List ℕ
drop_front [] = []
drop_front (c ∷ cs) = if c == 32 then skip_blanks (c ∷ cs) else c ∷ cs

unfoldable pub trim : List ℕ → List ℕ
trim txt = cut_blanks (drop_front txt)

-- What `cs_strncpy` leaves in front of the closing 0, for `num` from 1 on.
unfoldable pub cs_strncpy : List ℕ → ℕ → List ℕ
cs_strncpy source num =
    let size = length source in take (if ltb (num - 1) size then num - 1 else size) source
