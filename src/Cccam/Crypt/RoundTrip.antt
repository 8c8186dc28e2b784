-- ===== src/Cccam/Crypt/RoundTrip.antt =====
-- About the ciphers of both sides of a connection.
use oscam_vdr.Base.{
  ℕ, ◌+◌, ◌-◌, ◌*◌, ◌/◌, ◌%◌, ◌^◌, ◌<◌, ◌≡◌, refl, ap, ap₂, sym, ◌∙◌, bit_xor, bit_xor_undo,
  bit_xor_swap, bit_xor-mod, bit_xor-byte, bit_xor_comm, bit_xor-zero, inl, inr, List, [], ◌∷◌,
  ◌==◌, ==_iff, if◌then◌else◌, u8, All, all_below, all_below_sound, Bool-cases, arith,
}
use oscam_vdr.Cccam.Crypt.{
  Mode, decrypt, encrypt, CryptBlock, at, swap, turn, key_byte, absorb, cc_crypt, cc_rc4_crypt,
  shift_signed, cw_byte, cw_loop, cc_cw_crypt,
}

-- Two numbers that were mixed in come out again in either order.
peel : (z k s : ℕ) → bit_xor (bit_xor (bit_xor (bit_xor z k) s) k) s ≡ z
peel z k s =
    ap (λ (t : ℕ). bit_xor t s) (bit_xor_swap (bit_xor z k) s k)
    ∙ bit_xor_undo (bit_xor (bit_xor z k) k) s
    ∙ bit_xor_undo z k

-- Decrypting with a copy of the block gives back the bytes that were encrypted, and leaves the
-- two blocks in the same state, so that the next message can follow.
pub cc_crypt-cc_crypt :
    (block : CryptBlock) (bytes : List ℕ)
    → let (sender, sent) = cc_crypt block bytes encrypt in
      cc_crypt block sent decrypt ≡ (sender, bytes)
unfolding cc_crypt
cc_crypt-cc_crypt block [] = refl
cc_crypt-cc_crypt block (z ∷ zs) =
    let b = turn block in
    rw (peel z (key_byte b) b.state) (
      let ih = cc_crypt-cc_crypt (record b { state = bit_xor b.state z }) zs in
      λ i. ((ih i).0, z ∷ (ih i).1))

turn-same :
    (b c : CryptBlock)
    → b.keytable ≡ c.keytable
    → b.counter ≡ c.counter
    → b.sum ≡ c.sum
    → turn b ≡ record (turn c) { state = b.state }
unfolding turn
turn-same b c k n s = λ i. record {
  keytable = swap (k i) (u8 (n i + 1)) (u8 (s i + at (k i) (u8 (n i + 1))));
  state = b.state;
  counter = u8 (n i + 1);
  sum = u8 (s i + at (k i) (u8 (n i + 1)));
}

absorb_keytable : (m : Mode) (x y : ℕ) (b : CryptBlock) → (absorb m x y b).keytable ≡ b.keytable
absorb_keytable decrypt x y b = refl
absorb_keytable encrypt x y b = refl

absorb_counter : (m : Mode) (x y : ℕ) (b : CryptBlock) → (absorb m x y b).counter ≡ b.counter
absorb_counter decrypt x y b = refl
absorb_counter encrypt x y b = refl

absorb_sum : (m : Mode) (x y : ℕ) (b : CryptBlock) → (absorb m x y b).sum ≡ b.sum
absorb_sum decrypt x y b = refl
absorb_sum encrypt x y b = refl

key_byte-same : (b c : CryptBlock) (s : ℕ) → b ≡ record c { state = s } → key_byte b ≡ key_byte c
unfolding key_byte
key_byte-same b c s e = ap key_byte e

-- RC4 with a copy of the block gives back the bytes, whatever the modes of the two calls.
pub cc_rc4_crypt-cc_rc4_crypt :
    (block copy : CryptBlock) (bytes : List ℕ) (mode mode' : Mode)
    → block.keytable ≡ copy.keytable
    → block.counter ≡ copy.counter
    → block.sum ≡ copy.sum
    → (cc_rc4_crypt copy (cc_rc4_crypt block bytes mode).1 mode').1 ≡ bytes
unfolding cc_rc4_crypt
cc_rc4_crypt-cc_rc4_crypt block copy [] mode mode' k c s = refl
cc_rc4_crypt-cc_rc4_crypt block copy (z ∷ zs) mode mode' k c s =
    let b = turn block in
    let d = turn copy in
    let t = turn-same block copy k c s in
    rw (key_byte-same b d block.state t, bit_xor_undo z (key_byte d))
      (ap (λ (r : List ℕ). z ∷ r)
        (cc_rc4_crypt-cc_rc4_crypt (absorb mode z (bit_xor z (key_byte d)) b)
          (absorb mode' (bit_xor z (key_byte d)) z d) zs mode mode'
          (absorb_keytable mode z (bit_xor z (key_byte d)) b
            ∙ ap (λ r. r.keytable) t
            ∙ sym (absorb_keytable mode' (bit_xor z (key_byte d)) z d))
          (absorb_counter mode z (bit_xor z (key_byte d)) b
            ∙ ap (λ r. r.counter) t
            ∙ sym (absorb_counter mode' (bit_xor z (key_byte d)) z d))
          (absorb_sum mode z (bit_xor z (key_byte d)) b
            ∙ ap (λ r. r.sum) t
            ∙ sym (absorb_sum mode' (bit_xor z (key_byte d)) z d))))

-- The complement of a byte is `^ 0xff`.
complement : (x : ℕ) → x < 256 → 255 - x ≡ bit_xor x 255
unfolding all_below
complement x h =
    (==_iff (255 - x) (bit_xor x 255)).0
      (all_below_sound 256 (λ n. 255 - n == bit_xor n 255) x refl h)

-- Three numbers that were mixed in come out again in the same order.
peel_three :
    (c s m x : ℕ) → bit_xor (bit_xor (bit_xor (bit_xor (bit_xor (bit_xor c s) m) x) s) m) x ≡ c
peel_three c s m x =
    let y = bit_xor (bit_xor c s) m in
    ap (λ (t : ℕ). bit_xor (bit_xor t m) x) (bit_xor_swap y x s)
    ∙ ap (λ (t : ℕ). bit_xor t x) (bit_xor_swap (bit_xor y s) x m)
    ∙ bit_xor_undo (bit_xor (bit_xor y s) m) x
    ∙ ap (λ (t : ℕ). bit_xor t m) (bit_xor_swap (bit_xor c s) m s)
    ∙ bit_xor_undo (bit_xor (bit_xor c s) s) m
    ∙ bit_xor_undo c s

-- What is mixed into the bytes at odd places.
abbrev flip : ℕ → ℕ
flip i = if i % 2 == 1 then 255 else 0

small : (a : ℕ) → a < 256 → u8 a ≡ a
small a h = omega arith

low_byte : (a b : ℕ) → a < 256 → u8 (bit_xor a b) ≡ bit_xor a (u8 b)
low_byte a b h = bit_xor-mod 8 a b ∙ ap (λ (t : ℕ). bit_xor t (u8 b)) (small a h)

flip_byte : (i t : ℕ) → t < 256 → (if i % 2 == 1 then 255 - t else t) ≡ bit_xor t (flip i)
flip_byte i t h = elim (Bool-cases (i % 2 == 1)) [
  | inl e ↦ rw e (complement t h)
  | inr e ↦ rw e (sym (bit_xor-zero t))
]

flip-byte : (i : ℕ) → flip i < 256
flip-byte i = ground arith

cw_byte-mixed :
    (node_id cardid i c : ℕ)
    → c < 256
    → cw_byte node_id cardid i c
      ≡ bit_xor
          (bit_xor (bit_xor c (u8 (shift_signed node_id (4 * i)))) (flip i))
          (u8 (cardid / 2 ^ (2 * i)))
unfolding cw_byte
cw_byte-mixed node_id cardid i c h =
    let s = u8 (shift_signed node_id (4 * i)) in
    let b = bit_xor-byte c s h (omega arith) in
    let o = bit_xor-byte (bit_xor c s) (flip i) b (flip-byte i) in
    rw (low_byte c (shift_signed node_id (4 * i)) h, flip_byte i (bit_xor c s) b)
      (ap u8 (bit_xor_comm (cardid / 2 ^ (2 * i)) (bit_xor (bit_xor c s) (flip i)))
        ∙ low_byte (bit_xor (bit_xor c s) (flip i)) (cardid / 2 ^ (2 * i)) o)

cw_byte-byte : (node_id cardid i c : ℕ) → c < 256 → cw_byte node_id cardid i c < 256
unfolding cw_byte
cw_byte-byte node_id cardid i c h = omega arith

cw_byte-cw_byte :
    (node_id cardid i c : ℕ) → c < 256 → cw_byte node_id cardid i (cw_byte node_id cardid i c) ≡ c
cw_byte-cw_byte node_id cardid i c h =
    cw_byte-mixed node_id cardid i (cw_byte node_id cardid i c) (cw_byte-byte node_id cardid i c h)
    ∙ rw (cw_byte-mixed node_id cardid i c h)
        (peel_three c (u8 (shift_signed node_id (4 * i))) (flip i) (u8 (cardid / 2 ^ (2 * i))))

cw_loop-cw_loop :
    (node_id cardid i : ℕ) (cws : List ℕ)
    → All (λ (c : ℕ). c < 256) cws
    → cw_loop node_id cardid i (cw_loop node_id cardid i cws) ≡ cws
unfolding cw_loop
cw_loop-cw_loop node_id cardid i [] h = refl
cw_loop-cw_loop node_id cardid i (c ∷ cws) h =
    ap₂ ◌∷◌ (cw_byte-cw_byte node_id cardid i c (h.0))
      (cw_loop-cw_loop node_id cardid (i + 1) cws h.1)

-- `cc_cw_crypt` with the same node and card is its own inverse on bytes.
pub cc_cw_crypt-cc_cw_crypt :
    (node_id cardid : ℕ) (cws : List ℕ)
    → All (λ (c : ℕ). c < 256) cws
    → cc_cw_crypt node_id cardid (cc_cw_crypt node_id cardid cws) ≡ cws
unfolding cc_cw_crypt
cc_cw_crypt-cc_cw_crypt node_id cardid cws h = cw_loop-cw_loop node_id cardid 0 cws h
