-- ===== src/Card/T1Block/Fields.antt =====
-- Reading the fields of a block that a constructor built.
use oscam_vdr.Base.{
  ℕ, ◌*◌, ◌/◌, ◌%◌, ◌≤◌, ◌<◌, ◌≡◌, refl, bit_and, bit_or, Bool, true, false, ◌&&◌, ◌||◌, not, some,
  List, [], ◌∷◌, ◌++◌, ◌==◌, ==_iff, if◌then◌else◌, to_int, take, length, length-take,
  length-append, all_below, all_below_sound, Bool-cases, inl, inr, arith,
}
use oscam_vdr.Card.T1Block.{
  T1Block, closed, type_i, lrc, i_pcb, new_i_block, r_pcb, new_r_block, new_s_block, get_type,
  get_ns, get_more, get_nr, get_len, get_inf,
}

-- What the readers of an I-block give, for the control byte `pcb`.
abbrev i_fields : ℕ → ℕ → Bool → Bool
i_fields pcb ns more =
    (bit_and pcb 0x80 == 0)
    && ((bit_and (pcb / 64) 1 == ns % 2) && (bit_and (pcb / 32) 1 == to_int more))

i_table : (more : Bool) → all_below 256 (λ ns. i_fields (i_pcb ns more) ns more) ≡ true
unfolding all_below i_pcb
i_table true = refl
i_table false = refl

-- An I-block gives back its sequence bit, its more bit, its length and its information.
pub new_i_block_fields :
    (len ns : ℕ) (more : Bool) (inf : List ℕ)
    → ns < 256
    → 0 < len
    → len ≤ length inf
    → (b : T1Block) × (new_i_block true len inf ns more ≡ some b)
      × (get_type b ≡ type_i)
      × (get_ns b ≡ ns % 2)
      × (get_more b ≡ to_int more)
      × (get_len b ≡ len)
      × (get_inf b ≡ some (take len inf ++ (lrc (0 ∷ i_pcb ns more ∷ len ∷ take len inf) ∷ [])))
unfolding new_i_block get_type get_ns get_more get_len get_inf
new_i_block_fields len ns more inf h pos fit =
    let ok = all_below_sound 256 _ ns (i_table more) h in
    let bytes = closed (0 ∷ i_pcb ns more ∷ len ∷ take len inf) in
    (
      record { data_bytes = bytes; size = length bytes },
      refl,
      ground arith,
      ground arith,
      ground arith,
      refl,
      ground (
        arith,
        length-append (take len inf) (lrc (0 ∷ i_pcb ns more ∷ len ∷ take len inf) ∷ []),
        length-take len inf,
      ),
    )

-- The types of R- and S-blocks: bit 7 is set and bit 4, which an R-block needs for its sequence
-- number, is not.
abbrev pub is_kind : ℕ → Bool
is_kind kind = bit_and kind 0x90 == 0x80

type_of : ℕ → ℕ
type_of pcb = if bit_and pcb 0x80 == type_i then type_i else bit_and pcb 0xef

r_table :
    all_below 256 (λ kind.
      not (is_kind kind)
      || ((type_of (bit_or kind 0x10) == kind && bit_and (bit_or kind 0x10 / 16) 1 == 1)
          && (type_of (bit_or kind 0) == kind && bit_and (bit_or kind 0 / 16) 1 == 0)))
    ≡ true
unfolding all_below type_of
r_table = refl

sequence_table : all_below 256 (λ nr. bit_and (nr * 16) 0x10 == nr % 2 * 16) ≡ true
unfolding all_below
sequence_table = refl

bit_or-nothing : (kind : ℕ) → kind < 256 → is_kind kind ≡ true → type_of kind ≡ kind
unfolding type_of
bit_or-nothing kind h k = ground (arith, all_below_sound 256 _ kind s_table h)
  where
    s_table :
        all_below 256 (λ kind.
          not (is_kind kind) || (not (bit_and kind 0x80 == type_i) && bit_and kind 0xef == kind))
        ≡ true
    s_table = unfold all_below in refl

r_pcb_lem :
    (kind nr : ℕ)
    → kind < 256
    → nr < 256
    → is_kind kind ≡ true
    → (type_of (r_pcb kind nr) ≡ kind) × (bit_and (r_pcb kind nr / 16) 1 ≡ nr % 2)
unfolding r_pcb
r_pcb_lem kind nr h n k =
    let seq = (==_iff _ _).0 (all_below_sound 256 _ nr sequence_table n) in
    let row = all_below_sound 256 _ kind r_table h in
    elim (Bool-cases (nr % 2 == 1)) [
      | inl odd ↦ let e : nr % 2 ≡ 1 = ground arith in rw (seq, e) (ground arith)
      | inr even ↦ let e : nr % 2 ≡ 0 = ground arith in rw (seq, e) (ground arith)
    ]

-- An R-block gives back its type and its sequence bit, an S-block its type and its length.
pub new_r_block_fields :
    (kind nr len : ℕ) (inf : List ℕ)
    → kind < 256
    → nr < 256
    → is_kind kind ≡ true
    → ((b : T1Block) × (new_r_block true kind nr ≡ some b)
        × (get_type b ≡ kind)
        × (get_nr b ≡ nr % 2))
      × ((b : T1Block) × (new_s_block true kind len inf ≡ some b)
          × (get_type b ≡ kind)
          × (get_len b ≡ len))
unfolding new_r_block new_s_block get_type get_nr get_len
new_r_block_fields kind nr len inf h n k = (
  (
    record { data_bytes = closed (0 ∷ r_pcb kind nr ∷ 0 ∷ []); size = 4 },
    refl,
    unfold type_of in (r_pcb_lem kind nr h n k).0,
    (r_pcb_lem kind nr h n k).1,
  ),
  (
    record {
      data_bytes = closed (0 ∷ kind ∷ len ∷ take len inf);
      size = length (closed (0 ∷ kind ∷ len ∷ take len inf));
    },
    refl,
    unfold type_of in bit_or-nothing kind h k,
    refl,
  ),
)
