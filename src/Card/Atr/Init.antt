-- ===== src/Card/Atr/Init.antt =====
-- About `ATR_InitFromArray` as a whole.
use mathlib.Core.Path.{subst}
use oscam_vdr.Base.{
  ℕ, zero, suc, ◌+◌, ◌-◌, bit_and, ◌≤◌, ◌<◌, ◌≡◌, refl, ◌∙◌, Bool, true, false, not, inl, inr, List,
  [], ◌∷◌, map, ◌==◌, leb, ltb, take, length, length-map, length-take, All, Bool-cases, arith,
}
use oscam_vdr.Card.Atr.{Parsing, overrun, ◌>>=◌}
use oscam_vdr.Card.Atr.Parse.{
  at, num_ib, IbState, ib_row, ib_loop, finish, invert_byte, normalise, init_from_array,
}
use oscam_vdr.Card.Atr.Raw.{IsRead, ib_loop-Reads, Reads-finish, at-byte}

length-normalise : (b : List ℕ) (len : ℕ) → len ≤ length b → length (normalise b len) ≡ len
unfolding normalise
length-normalise b len h = elim (Bool-cases (at b 0 == 3)) [
  | inl e ↦
      rw e (length-map (take len b) (λ x. 255 - invert_byte x) ∙ omega (arith, length-take len b))
  | inr e ↦ rw e (omega (arith, length-take len b))
]

take-bytes : (n : ℕ) (xs : List ℕ) → All (λ b. b < 256) xs → All (λ b. b < 256) (take n xs)
take-bytes zero xs h = tt
take-bytes (suc n) [] h = tt
take-bytes (suc n) (x ∷ xs) h = (h.0, take-bytes n xs h.1)

inverted-bytes : (xs : List ℕ) → All (λ b. b < 256) (map (λ x. 255 - invert_byte x) xs)
inverted-bytes [] = tt
inverted-bytes (x ∷ xs) = (omega arith, inverted-bytes xs)

normalise-bytes :
    (b : List ℕ) (len : ℕ) → All (λ x. x < 256) b → All (λ x. x < 256) (normalise b len)
unfolding normalise
normalise-bytes b len h = elim (Bool-cases (at b 0 == 3)) [
  | inl e ↦ rw e (inverted-bytes (take len b))
  | inr e ↦ rw e (take-bytes len b h)
]

-- Of an ATR that is accepted, the raw bytes are the first bytes of the buffer that it was read
-- from, as many as its length says, and that is no more than was given. The buffer is the card's
-- bytes, inverted as a whole where the first is 3.
pub get_raw-init_from_array :
    (atr_buffer : List ℕ) (len : ℕ)
    → len ≤ length atr_buffer
    → All (λ b. b < 256) atr_buffer
    → IsRead (normalise atr_buffer len) (init_from_array atr_buffer len)
unfolding init_from_array
get_raw-init_from_array atr_buffer len fits all_bytes =
    let e = length-normalise atr_buffer len fits in
    let bytes = normalise-bytes atr_buffer len all_bytes in
    elim (Bool-cases (ltb len 2)) [
      | inl short ↦ rw short tt
      | inr enough ↦
          let buffer = normalise atr_buffer len in
          let two : 2 ≤ length buffer = ground arith in
          rw enough (
            subst
              (λ (n : ℕ).
                IsRead buffer (ib_loop 7 buffer n 1 (at buffer 1) 0 false >>= finish buffer n))
              e
              (Reads-finish buffer _ two (
                ib_loop-Reads 7 buffer 1 (at buffer 1) 0 false bytes (at-byte buffer 1 bytes) two)))
    ]

ib_row_overrun :
    (buffer : List ℕ) (p pn : ℕ) (tck : Bool) (next : ℕ → ℕ → ℕ → Bool → Parsing IbState)
    → next (p + 1) (at buffer (p + 1)) (pn + 1) (not (bit_and (at buffer (p + 1)) 0x0f == 0))
      ≡ overrun
    → ib_row buffer p 0x80 pn tck next ≡ overrun
unfolding ib_row
ib_row_overrun buffer p pn tck next h = rw h

-- From row `pn` on, every row left promises another one.
ib_loop_overrun :
    (left : ℕ) (buffer : List ℕ) (len p pn : ℕ) (tck : Bool)
    → p + left ≡ 8
    → 1 ≤ p
    → ((i : ℕ) → 1 ≤ i → i < 8 → at buffer i ≡ 0x80)
    → 8 + num_ib (at buffer 8) < len
    → ib_loop left buffer len p (at buffer p) pn tck ≡ overrun
unfolding ib_loop
ib_loop_overrun zero buffer len p pn tck e h rows fits =
    let q : p ≡ 8 = omega arith in rw q (ground arith)
ib_loop_overrun (suc left) buffer len p pn tck e h rows fits =
    let inside : ltb p len ≡ true = ground arith in
    let room : leb len (p + 1) ≡ false = ground arith in
    let rest =
      ib_loop_overrun left buffer len (p + 1) (pn + 1) (not (bit_and (at buffer (p + 1)) 0x0f == 0))
        (omega arith) (omega arith) rows fits in
    rw (rows p h (omega arith))
      (rw (inside, room) (ib_row_overrun buffer p pn tck (ib_loop left buffer len) rest))

-- Where the bytes 1 to 7 are 0x80, so that each promises another row and nothing else, and the
-- buffer has the bytes that byte 8 promises, the parser writes an eighth row behind the seven
-- that there are.
pub init_from_array_overrun :
    (atr_buffer : List ℕ) (len : ℕ)
    → let buffer = normalise atr_buffer len in
      ((i : ℕ) → 1 ≤ i → i < 8 → at buffer i ≡ 0x80)
      → 8 + num_ib (at buffer 8) < len
      → init_from_array atr_buffer len ≡ overrun
unfolding init_from_array
init_from_array_overrun atr_buffer len rows fits =
    let enough : ltb len 2 ≡ false = ground arith in
    rw enough
      (rw (ib_loop_overrun 7 (normalise atr_buffer len) len 1 0 false refl (omega arith) rows fits))
