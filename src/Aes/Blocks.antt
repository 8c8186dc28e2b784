-- ===== src/Aes/Blocks.antt =====
-- About AES on the blocks of a buffer.
use mathlib.Core.Path.{subst}
use oscam_vdr.Base.{
  ℕ, zero, suc, ◌-◌, ◌*◌, ◌≤◌, ◌≡◌, refl, ap, ap₂, ◌∙◌, false, List, [], ◌∷◌, ◌++◌, ◌==◌, take,
  drop, length, length-take, length-drop, take-append-drop, arith,
}
use oscam_vdr.Aes.{crypt_loop, aes_encrypt_idx, aes_decrypt}

take-append : (n : ℕ) (xs ys : List ℕ) → length xs ≡ n → take n (xs ++ ys) ≡ xs
take-append n xs ys e = subst (λ (m : ℕ). take m (xs ++ ys) ≡ xs) e (go xs)
  where
    go : (zs : List ℕ) → take (length zs) (zs ++ ys) ≡ zs
    go [] = refl
    go (z ∷ zs) = ap (λ (t : List ℕ). z ∷ t) (go zs)

drop-append : (n : ℕ) (xs ys : List ℕ) → length xs ≡ n → drop n (xs ++ ys) ≡ ys
drop-append n xs ys e = subst (λ (m : ℕ). drop m (xs ++ ys) ≡ ys) e (go xs)
  where
    go : (zs : List ℕ) → drop (length zs) (zs ++ ys) ≡ ys
    go [] = refl
    go (z ∷ zs) = go zs

crypt_loop_step :
    (f : List ℕ → List ℕ) (rounds k : ℕ) (buf : List ℕ)
    → crypt_loop f (suc rounds) (16 * suc k) buf
      ≡ f (take 16 buf) ++ crypt_loop f rounds (16 * k) (drop 16 buf)
crypt_loop_step f rounds k buf =
    let t : (16 * suc k == 0) ≡ false = ground arith in
    let m : 16 * suc k - 16 ≡ 16 * k = omega arith in rw (t, crypt_loop, m) refl

module _ (enc dec : List ℕ → List ℕ)
    (length-enc : (b : List ℕ) → length b ≡ 16 → length (enc b) ≡ 16)
    (dec-enc : (b : List ℕ) → length b ≡ 16 → dec (enc b) ≡ b) where
  pub crypt_loop-crypt_loop :
      (rounds k : ℕ) (buf : List ℕ)
      → 16 * k ≤ length buf
      → crypt_loop dec rounds (16 * k) (crypt_loop enc rounds (16 * k) buf) ≡ buf
  crypt_loop-crypt_loop zero k buf b = refl
  crypt_loop-crypt_loop (suc rounds) zero buf b = refl
  crypt_loop-crypt_loop (suc rounds) (suc k) buf b =
      let first : length (take 16 buf) ≡ 16 = omega (arith, length-take 16 buf) in
      let coded = enc (take 16 buf) in
      let rest = crypt_loop enc rounds (16 * k) (drop 16 buf) in
      let size = length-enc (take 16 buf) first in
      ap (crypt_loop dec (suc rounds) (16 * suc k)) (crypt_loop_step enc rounds k buf)
      ∙ crypt_loop_step dec rounds k (coded ++ rest)
      ∙ ap₂ (λ (x y : List ℕ). dec x ++ crypt_loop dec rounds (16 * k) y)
          (take-append 16 coded rest size) (drop-append 16 coded rest size)
      ∙ ap₂ (λ (x y : List ℕ). x ++ y) (dec-enc (take 16 buf) first)
          (crypt_loop-crypt_loop rounds k (drop 16 buf) (omega (arith, length-drop 16 buf)))
      ∙ take-append-drop 16 buf

-- Decrypting what was encrypted under the same key gives the buffer back, for a number of bytes
-- that is a multiple of 16 and within the buffer, if AES decrypts the blocks that it encrypted.
pub aes_decrypt-aes_encrypt_idx :
    (aes_encrypt aes_decrypt_block : List ℕ → List ℕ → List ℕ)
    → ((key b : List ℕ) → length b ≡ 16 → length (aes_encrypt key b) ≡ 16)
    → ((key b : List ℕ) → length b ≡ 16 → aes_decrypt_block key (aes_encrypt key b) ≡ b)
    → (key buf : List ℕ) (k : ℕ) → 16 * k ≤ length buf
    → aes_decrypt aes_encrypt aes_decrypt_block key
        (aes_encrypt_idx aes_encrypt aes_decrypt_block key buf (16 * k))
        (16 * k)
      ≡ buf
unfolding aes_decrypt aes_encrypt_idx
aes_decrypt-aes_encrypt_idx enc dec l i key buf k b =
    crypt_loop-crypt_loop (enc key) (dec key) (l key) (i key) (16 * k) k buf b
