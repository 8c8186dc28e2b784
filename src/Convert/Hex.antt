-- ===== src/Convert/Hex.antt =====
-- The hexadecimal readers and writers of oscam-simples.c. An `int32_t` is its bit pattern, so -1 is
-- `minus_one`.
pub mod Digits
use oscam_vdr.Base.{
  ℕ, zero, suc, ◌+◌, ◌-◌, ◌*◌, ◌/◌, ◌%◌, ◌^◌, bit_and, bit_or, Bool, true, false, ◌&&◌, Option,
  none, some, List, [], ◌∷◌, ◌==◌, leb, ltb, nonzero, if◌then◌else◌, get_or, set, length, u8, u32,
}
use mathlib.Core.List.{reverse}
use oscam_vdr.Convert.Bytes.{at}
use oscam_vdr.Convert.Text.{trim}

abbrev pub minus_one : ℕ
minus_one = 0xffff_ffff

unfoldable pub gethexval : ℕ → ℕ
gethexval c =
    if leb b'0' c && leb c b'9'
    then c - b'0'
    else if leb b'A' c && leb c b'F'
    then c - b'A' + 10
    else if leb b'a' c && leb c b'f'
    then c - b'a' + 10
    else minus_one

-- `(gethexval(c)<<4)|gethexval(d)`
unfoldable pub hex_pair : ℕ → ℕ → ℕ
hex_pair c d = bit_or (u32 (gethexval c * 2 ^ 4)) (gethexval d)

-- The loop of `cs_atob` from byte `i` on: -1 at the first pair that is not hexadecimal, with the
-- bytes before it written.
unfoldable pub atob_loop : ℕ → ℕ → List ℕ → List ℕ → ℕ → ℕ × List ℕ
atob_loop zero i buf asc n = (n, buf)
atob_loop (suc left) i buf asc n =
    let rc = hex_pair (at asc (2 * i)) (at asc (2 * i + 1)) in
    elim (nonzero (bit_and rc 0x100)) [
      | true ↦ (minus_one, buf)
      | false ↦ atob_loop left (i + 1) (set buf i (u8 rc)) asc n
    ]

unfoldable pub cs_atob : List ℕ → List ℕ → ℕ → ℕ × List ℕ
cs_atob buf asc n = atob_loop n 0 buf asc n

unfoldable pub byte_atob : List ℕ → ℕ
unfolding hex_pair
byte_atob asc =
    let t = trim asc in
    if length t == 2
    then (let rc = hex_pair (at t 0) (at t 1) in
        if nonzero (bit_and rc 0x100) then minus_one else rc)
    else minus_one

unfoldable pub word_atob : List ℕ → ℕ
unfolding gethexval
word_atob asc =
    let t = trim asc in
    if length t == 4
    then (let rc =
          bit_or
            (bit_or (bit_or (u32 (gethexval (at t 0) * 2 ^ 12)) (u32 (gethexval (at t 1) * 2 ^ 8)))
              (u32 (gethexval (at t 2) * 2 ^ 4)))
            (gethexval (at t 3)) in
        if nonzero (bit_and rc 0x10000) then minus_one else rc)
    else minus_one

-- `for(i = 0, rc = 0; i < len; i++) rc = rc << 4 | gethexval(asc[i]);`
unfoldable pub dyn_loop : List ℕ → ℕ → ℕ
unfolding gethexval
dyn_loop [] rc = rc
dyn_loop (c ∷ cs) rc = dyn_loop cs (bit_or (u32 (rc * 2 ^ 4)) (gethexval c))

unfoldable pub dyn_word_atob : List ℕ → ℕ
unfolding dyn_loop
dyn_word_atob asc =
    let t = trim asc in
    if leb (length t) 4 && nonzero (length t)
    then (let rc = dyn_loop t 0 in if nonzero (bit_and rc 0x10000) then minus_one else rc)
    else minus_one

-- The loop of `key_atob_l`: it goes on behind a bad digit, and the byte takes
-- `(n1<<4)+(n2&0xff)` in any case.
unfoldable pub key_loop : ℕ → ℕ → List ℕ → List ℕ → ℕ → ℕ × List ℕ
unfolding gethexval
key_loop zero i asc bin rc = (rc, bin)
key_loop (suc left) i asc bin rc =
    let n1 = gethexval (at asc (2 * i)) in
    let n2 = gethexval (at asc (2 * i + 1)) in
    key_loop left (i + 1) asc (set bin i (u8 (n1 * 2 ^ 4 + bit_and n2 0xff)))
      (if n1 == minus_one then minus_one else if n2 == minus_one then minus_one else rc)

-- `l` digits, so `(l + 1) / 2` rounds.
unfoldable pub key_atob_l : List ℕ → List ℕ → ℕ → ℕ × List ℕ
unfolding key_loop
key_atob_l asc bin l = key_loop ((l + 1) / 2) 0 asc bin 0

unfoldable pub to_hex : ℕ → ℕ
to_hex code = let d = bit_and code 15 in if ltb d 10 then b'0' + d else b'a' + (d - 10)

-- Two digits for each byte.
unfoldable pub char_to_hex : List ℕ → List ℕ
char_to_hex [] = []
char_to_hex (p ∷ ps) = to_hex (p / 2 ^ 4) ∷ to_hex (bit_and p 15) ∷ char_to_hex ps

-- The loop of `a2i` over the digits from the end, at digit `i` of `left + i`. None is the early
-- return at a bad digit.
unfoldable pub a2i_loop : ℕ → ℕ → List ℕ → Bool → ℕ → Option ℕ
a2i_loop zero i rev fill rc = some rc
a2i_loop (suc left) i [] fill rc =
    a2i_loop left (i + 1) [] fill (if fill then bit_or rc (u32 (0xf * 2 ^ (4 * i))) else rc)
a2i_loop (suc left) i (c ∷ cs) fill rc = elim (gethexval c == minus_one) [
  | true ↦ none
  | false ↦ a2i_loop left (i + 1) cs fill (bit_or rc (u32 (gethexval c * 2 ^ (4 * i))))
]

-- `asc` from its last digit back; `bytes` and `fill` are the size and the sign of the argument.
unfoldable pub a2i : List ℕ → ℕ → Bool → ℕ
unfolding a2i_loop
a2i asc bytes fill = elim (a2i_loop (2 * bytes) 0 (reverse (trim asc)) fill 0) [
  | none ↦ 0x1f1f1f
  | some rc ↦ rc
]
