-- ===== src/Cccam/Crypt.antt =====
-- module-cccam.c, `cc_init_crypt` to `cc_cw_crypt`. Bytes wrap at 256.
pub mod RoundTrip
-- pub mod Bounds
use oscam_vdr.Base.{
  ℕ, zero, suc, ◌+◌, ◌-◌, ◌*◌, ◌/◌, ◌%◌, ◌^◌, bit_and, bit_xor, Bool, true, false, List, [], ◌∷◌,
  ◌==◌, leb, ltb, if◌then◌else◌, get_or, set, u8, length,
}

pub data Mode : Type 0 where
  decrypt encrypt : Mode

-- `struct cc_crypt_block`; `keytable` has 256 entries.
pub record CryptBlock : Type 0 where
  pub keytable : List ℕ
  pub state : ℕ
  pub counter : ℕ
  pub sum : ℕ

abbrev pub at : List ℕ → ℕ → ℕ
at xs i = get_or xs i 0

-- `SWAPC(&table[i], &table[j])`
abbrev pub swap : List ℕ → ℕ → ℕ → List ℕ
swap table i j = set (set table i (at table j)) j (at table i)

-- `for (i = 0; i < 256; i++) keytable[i] = i;`, from `i` on.
unfoldable pub count_up : ℕ → ℕ → List ℕ
count_up zero i = []
count_up (suc left) i = i ∷ count_up left (i + 1)

-- The second loop of `cc_init_crypt`, from `i` on.
unfoldable pub mix_key : ℕ → ℕ → ℕ → List ℕ → List ℕ → List ℕ
mix_key zero i j key table = table
mix_key (suc left) i j key table =
    let j' = u8 (j + (at key (i % length key) + at table i)) in
    mix_key left (i + 1) j' key (swap table i j')

-- `len` is the length of the key.
unfoldable pub cc_init_crypt : List ℕ → CryptBlock
cc_init_crypt key = record {
  keytable = mix_key 256 0 0 key (count_up 256 0);
  state = at key 0;
  counter = 0;
  sum = 0;
}

-- The block after the steps that come before the data is read.
unfoldable pub turn : CryptBlock → CryptBlock
turn b =
    let counter = u8 (b.counter + 1) in
    let sum = u8 (b.sum + at b.keytable counter) in
    record { keytable = swap b.keytable counter sum; state = b.state; counter = counter; sum = sum }

-- `keytable[(keytable[counter] + keytable[sum]) & 0xff]`
unfoldable pub key_byte : CryptBlock → ℕ
key_byte b = at b.keytable (bit_and (at b.keytable b.counter + at b.keytable b.sum) 0xff)

-- `state ^= z`, z the byte before for `encrypt` and after for `decrypt`.
abbrev pub absorb : Mode → ℕ → ℕ → CryptBlock → CryptBlock
absorb Mode.encrypt before after b = record b { state = bit_xor b.state before }
absorb Mode.decrypt before after b = record b { state = bit_xor b.state after }

-- The new block and the bytes.
unfoldable pub cc_crypt : CryptBlock → List ℕ → Mode → CryptBlock × List ℕ
cc_crypt block [] mode = (block, [])
cc_crypt block (z ∷ zs) mode =
    let b = turn block in
    let out = bit_xor (bit_xor z (key_byte b)) b.state in
    let rest = cc_crypt (absorb mode z out b) zs mode in (rest.0, out ∷ rest.1)

unfoldable pub cc_rc4_crypt : CryptBlock → List ℕ → Mode → CryptBlock × List ℕ
cc_rc4_crypt block [] mode = (block, [])
cc_rc4_crypt block (z ∷ zs) mode =
    let b = turn block in
    let out = bit_xor z (key_byte b) in
    let rest = cc_rc4_crypt (absorb mode z out b) zs mode in (rest.0, out ∷ rest.1)

-- "CCcam" with its closing 0.
abbrev pub cccam_text : List ℕ
cccam_text = 67 ∷ 67 ∷ 99 ∷ 97 ∷ 109 ∷ 0 ∷ []

-- The loop of `cc_xor` from `i` on.
unfoldable pub xor_loop : ℕ → ℕ → List ℕ → List ℕ
xor_loop zero i buf = buf
xor_loop (suc left) i buf =
    let buf' = set buf (8 + i) (u8 (i * at buf i)) in
    xor_loop left (i + 1)
      (if leb i 5 then set buf' i (bit_xor (at buf' i) (at cccam_text i)) else buf')

unfoldable pub cc_xor : List ℕ → List ℕ
unfolding xor_loop
cc_xor buf = xor_loop 8 0 buf

-- `node_id >> k` of a signed 64-bit number given by its bits.
unfoldable pub shift_signed : ℕ → ℕ → ℕ
shift_signed n k = if ltb n (2 ^ 63) then n / 2 ^ k else n / 2 ^ k + (2 ^ 64 - 2 ^ (64 - k))

-- The byte `i` of `cws`, with the node id that `cc_cw_crypt` chose by the client's type.
unfoldable pub cw_byte : ℕ → ℕ → ℕ → ℕ → ℕ
unfolding shift_signed
cw_byte node_id cardid i cw =
    let tmp = u8 (bit_xor cw (shift_signed node_id (4 * i))) in
    u8 (bit_xor (cardid / 2 ^ (2 * i)) (if i % 2 == 1 then 255 - tmp else tmp))

unfoldable pub cw_loop : ℕ → ℕ → ℕ → List ℕ → List ℕ
cw_loop node_id cardid i [] = []
cw_loop node_id cardid i (cw ∷ cws) =
    cw_byte node_id cardid i cw ∷ cw_loop node_id cardid (i + 1) cws

-- The sixteen bytes of a control word.
unfoldable pub cc_cw_crypt : ℕ → ℕ → List ℕ → List ℕ
cc_cw_crypt node_id cardid cws = cw_loop node_id cardid 0 cws
