-- ===== src/Card/T1Block/Checksum.antt =====
-- About the checksum of the blocks that the constructors build.
use oscam_vdr.Base.{
  ℕ, ◌+◌, ◌≤◌, ◌≡◌, refl, ◌∙◌, bit_xor, bit_xor_self, Bool, true, Option, none, some, List, [], ◌∷◌,
  ◌++◌, take, length, length-take, length-append, arith,
}
use oscam_vdr.Card.T1Block.{
  T1Block, lrc_loop, lrc, make, closed, i_pcb, new_i_block, r_pcb, new_r_block, new_s_block,
}

lrc_loop-append : (k : ℕ) (xs ys : List ℕ) → lrc_loop k (xs ++ ys) ≡ lrc_loop (lrc_loop k xs) ys
unfolding lrc_loop
lrc_loop-append k [] ys = refl
lrc_loop-append k (x ∷ xs) ys = lrc_loop-append (bit_xor k x) xs ys

lrc-closed : (bytes : List ℕ) → lrc (closed bytes) ≡ 0
unfolding lrc
lrc-closed bytes = lrc_loop-append 0 bytes (lrc bytes ∷ []) ∙ bit_xor_self (lrc bytes)

-- A block that a receiver accepts, of the given size.
abbrev pub IsSound : ℕ → Option T1Block → Type 0
IsSound n none = ⊥
IsSound n (some b) = (lrc b.data_bytes ≡ 0) × (b.size ≡ n) × (length b.data_bytes ≡ n)

make-IsSound :
    (n : ℕ) (bytes : List ℕ) → length bytes + 1 ≡ n → IsSound n (make true (closed bytes))
make-IsSound n bytes h = (
  lrc-closed bytes,
  omega (arith, length-append bytes (lrc bytes ∷ [])),
  omega (arith, length-append bytes (lrc bytes ∷ [])),
)

-- Every block that the constructors build has its four bytes and those of the information field,
-- and its bytes, the checksum included, have the exclusive or 0.
pub new_block-IsSound :
    (kind len nr ns : ℕ) (more : Bool) (inf : List ℕ)
    → len ≤ length inf
    → IsSound (len + 4) (new_i_block true len inf ns more)
      × IsSound 4 (new_r_block true kind nr)
      × IsSound (len + 4) (new_s_block true kind len inf)
unfolding new_i_block new_r_block new_s_block
new_block-IsSound kind len nr ns more inf h = (
  make-IsSound (len + 4) (0 ∷ i_pcb ns more ∷ len ∷ take len inf)
      (omega (arith, length-take len inf)),
  make-IsSound 4 (0 ∷ r_pcb kind nr ∷ 0 ∷ []) refl,
  make-IsSound (len + 4) (0 ∷ kind ∷ len ∷ take len inf) (omega (arith, length-take len inf)),
)
