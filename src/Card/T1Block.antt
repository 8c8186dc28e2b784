-- ===== src/Card/T1Block.antt =====
-- csctapi/t1_block.c. The argument `allocated` is false where `malloc` or `calloc` fails, which
-- makes a constructor return NULL. `inf` is the buffer behind the pointer.
pub mod Fields
pub mod Checksum
use oscam_vdr.Base.{
  ℕ, ◌+◌, ◌-◌, ◌*◌, ◌/◌, ◌%◌, ◌^◌, bit_and, bit_or, bit_xor, Bool, true, false, ◌&&◌, Option, none,
  some, List, [], ◌∷◌, ◌++◌, ◌==◌, ltb, if◌then◌else◌, get_or, take, drop, length, u8,
}

-- `length` is the field of the C type; the list holds that many bytes.
pub record T1Block : Type 0 where
  pub data_bytes : List ℕ
  pub size : ℕ

abbrev pub max_size : ℕ
max_size = 259

abbrev pub type_i : ℕ
type_i = 0x00

abbrev pub byte_at : T1Block → ℕ → ℕ
byte_at b i = get_or b.data_bytes i 0

-- `for (i = 0; i < length; i++) lrc ^= data[i];`
unfoldable pub lrc_loop : ℕ → List ℕ → ℕ
lrc_loop lrc [] = lrc
lrc_loop lrc (b ∷ bs) = lrc_loop (bit_xor lrc b) bs

unfoldable pub lrc : List ℕ → ℕ
unfolding lrc_loop
lrc bytes = lrc_loop 0 bytes

-- A block from its bytes, if there was memory for it.
abbrev pub make : Bool → List ℕ → Option T1Block
make false bytes = none
make true bytes = some (record { data_bytes = bytes; size = length bytes })

-- The bytes with their checksum behind them.
abbrev pub closed : List ℕ → List ℕ
closed bytes = bytes ++ (lrc bytes ∷ [])

unfoldable pub new : Bool → List ℕ → ℕ → Option T1Block
new allocated buffer len =
    if ltb len 4
    then none
    else make allocated (take (if ltb max_size len then max_size else len) buffer)

-- `T1_BLOCK_I | ((ns << 6) & 0x40)`, and `|= 0x20` for more.
unfoldable pub i_pcb : ℕ → Bool → ℕ
i_pcb ns more =
    let pcb = bit_or type_i (bit_and (ns * 2 ^ 6) 0x40) in if more then bit_or pcb 0x20 else pcb

unfoldable pub new_i_block : Bool → ℕ → List ℕ → ℕ → Bool → Option T1Block
new_i_block allocated len inf ns more =
    make allocated (closed (0 ∷ i_pcb ns more ∷ len ∷ take len inf))

-- `type | ((nr << 4) & 0x10)`
unfoldable pub r_pcb : ℕ → ℕ → ℕ
r_pcb kind nr = bit_or kind (bit_and (nr * 2 ^ 4) 0x10)

unfoldable pub new_r_block : Bool → ℕ → ℕ → Option T1Block
new_r_block allocated kind nr = make allocated (closed (0 ∷ r_pcb kind nr ∷ 0 ∷ []))

unfoldable pub new_s_block : Bool → ℕ → ℕ → List ℕ → Option T1Block
new_s_block allocated kind len inf = make allocated (closed (0 ∷ kind ∷ len ∷ take len inf))

unfoldable pub get_type : T1Block → ℕ
get_type b = if bit_and (byte_at b 1) 0x80 == type_i then type_i else bit_and (byte_at b 1) 0xef

unfoldable pub get_ns : T1Block → ℕ
get_ns b = bit_and (byte_at b 1 / 2 ^ 6) 0x01

unfoldable pub get_more : T1Block → ℕ
get_more b = bit_and (byte_at b 1 / 2 ^ 5) 0x01

unfoldable pub get_nr : T1Block → ℕ
get_nr b = bit_and (byte_at b 1 / 2 ^ 4) 0x01

unfoldable pub get_len : T1Block → ℕ
get_len b = byte_at b 2

-- The bytes from the pointer on; none is NULL.
unfoldable pub get_inf : T1Block → Option (List ℕ)
get_inf b = if ltb b.size 5 then none else some (drop 3 b.data_bytes)
