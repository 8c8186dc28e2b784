-- ===== src/Aes.antt =====
-- oscam-simples.c: the AES keys of a reader, and AES on the blocks of a buffer. The AES library is a
-- parameter: what it makes of a block of 16 bytes under a key, to encrypt and to decrypt.
pub mod Keys
pub mod Blocks
mod Tests
use oscam_vdr.Base.{
  ℕ, zero, suc, ◌+◌, ◌-◌, Bool, true, false, ◌&&◌, not, Option, none, some, List, [], ◌∷◌, ◌++◌,
  ltb, leb, ◌==◌, if◌then◌else◌, take, drop, get_or, u16,
}

-- `AES_ENTRY`. The key schedule is that of the bytes, or all 0, which no key has: then it is none.
pub record AesEntry : Type 0 where
  pub plainkey : List ℕ
  pub caid : ℕ
  pub ident : ℕ
  pub keyid : ℕ
  pub key : Option (List ℕ)

-- `!memcmp(aesKey,"\xFF\xFF",2)`: the card decrypts by itself.
abbrev pub by_card : List ℕ → Bool
by_card key = get_or key 0 0 == 255 && get_or key 1 0 == 255

abbrev pub append : AesEntry → List AesEntry → List AesEntry
append e [] = e ∷ []
append e (c ∷ cs) = c ∷ append e cs

-- `cs_malloc` is taken to succeed.
unfoldable pub add_aes_entry : ℕ → ℕ → ℕ → List ℕ → List AesEntry → List AesEntry
add_aes_entry caid ident keyid key list =
    append
      (record {
        plainkey = take 16 key;
        caid = caid;
        ident = ident;
        keyid = u16 keyid;
        key = if by_card key then none else some (take 16 key);
      })
      list

-- The list that is left, and the entries passed to `add_garbage`.
abbrev pub aes_clear_entries : List AesEntry → List AesEntry × List AesEntry
aes_clear_entries list = ([], list)

abbrev pub is_for : ℕ → ℕ → ℕ → AesEntry → Bool
is_for caid provid keyid e = e.caid == caid && e.ident == provid && e.keyid == keyid

-- The loop that `aes_decrypt_from_list` and `aes_present` share.
abbrev pub find_key : ℕ → ℕ → ℕ → List AesEntry → Option AesEntry
find_key caid provid keyid [] = none
find_key caid provid keyid (e ∷ es) =
    let rest = find_key caid provid keyid es in if is_for caid provid keyid e then some e else rest

-- What the loop over the blocks of the first `n` bytes does, in at most so many rounds.
abbrev pub crypt_loop : (List ℕ → List ℕ) → ℕ → ℕ → List ℕ → List ℕ
crypt_loop block zero n buf = buf
crypt_loop block (suc rounds) n buf =
    if n == 0 then buf else block (take 16 buf) ++ crypt_loop block rounds (n - 16) (drop 16 buf)

module _ (aes_encrypt aes_decrypt_block : List ℕ → List ℕ → List ℕ) where
  -- `aes_encrypt_idx` and `aes_decrypt` under the key that `aes_set_key` has set.
  unfoldable pub aes_encrypt_idx : List ℕ → List ℕ → ℕ → List ℕ
  aes_encrypt_idx key buf n = crypt_loop (aes_encrypt key) n n buf

  unfoldable pub aes_decrypt : List ℕ → List ℕ → ℕ → List ℕ
  aes_decrypt key buf n = crypt_loop (aes_decrypt_block key) n n buf

  abbrev pub decrypt_with : Option AesEntry → List ℕ → ℕ → Bool × List ℕ
  decrypt_with none buf n = (false, buf)
  decrypt_with (some e) buf n = elim e.key [
    | none ↦ (true, buf)
    | some key ↦ (true, crypt_loop (aes_decrypt_block key) n n buf)
  ]

  -- Whether a key was found, and the buffer.
  unfoldable pub aes_decrypt_from_list : List AesEntry → ℕ → ℕ → ℕ → List ℕ → ℕ → Bool × List ℕ
  aes_decrypt_from_list list caid provid keyid buf n =
      decrypt_with (find_key caid provid keyid list) buf n

abbrev pub present : Option AesEntry → Bool
present none = false
present (some e) = true

unfoldable pub aes_present : List AesEntry → ℕ → ℕ → ℕ → Bool
aes_present list caid provid keyid = present (find_key caid provid keyid list)
