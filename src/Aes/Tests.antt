-- ===== src/Aes/Tests.antt =====
-- Runs on concrete keys and buffers. In place of AES stands the addition of 1 to each byte.
use oscam_vdr.Base.{ℕ, ◌+◌, ◌-◌, ◌≡◌, refl, ap₂, List, [], ◌∷◌, map, replicate, arith}

abbrev up : List ℕ → List ℕ → List ℕ
up key = map (λ (x : ℕ). x + 1)

abbrev down : List ℕ → List ℕ → List ℕ
down key = map (λ (x : ℕ). x - 1)

down-up : (xs : List ℕ) → map (λ (x : ℕ). x - 1) (map (λ (x : ℕ). x + 1) xs) ≡ xs
down-up [] = refl
down-up (x ∷ xs) =
    let e : x + 1 - 1 ≡ x = omega arith in ap₂ (λ (y : ℕ) (ys : List ℕ). y ∷ ys) e (down-up xs)

abbrev key : List ℕ
key = replicate 16 9

abbrev buffer : List ℕ
buffer = replicate 33 5
