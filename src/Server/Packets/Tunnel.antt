-- ===== src/Server/Packets/Tunnel.antt =====
-- About the bytes that `convert_to_beta` writes.
use oscam_vdr.Base.{
  ℕ, zero, suc, ◌+◌, ◌-◌, ◌≤◌, ◌<◌, ◌≡◌, refl, ap, ◌∙◌, List, [], ◌∷◌, ◌++◌, ◌==◌, ltb, set, take,
  drop, length, length-append, length-take, length-drop, length-set, get_or-set_ne, get_or-set_self,
  Bool-cases, inl, inr, arith, u8,
}
use oscam_vdr.Convert.Bytes.{at}
use oscam_vdr.Server.{Request}
use oscam_vdr.Server.Packets.{header_n2, header_n3, copy_to, beta_bytes, convert_to_beta}

at-append_right : (xs ys : List ℕ) (i : ℕ) → at (xs ++ ys) (length xs + i) ≡ at ys i
at-append_right [] ys i = let e : 0 + i ≡ i = omega arith in ap (at ys) e
at-append_right (x ∷ xs) ys i =
    let e : suc (length xs) + i ≡ suc (length xs + i) = omega arith in
    ap (at (x ∷ (xs ++ ys))) e ∙ at-append_right xs ys i

at-append_left : (xs ys : List ℕ) (i : ℕ) → i < length xs → at (xs ++ ys) i ≡ at xs i
at-append_left [] ys i h = absurd (omega arith)
at-append_left (x ∷ xs) ys zero h = refl
at-append_left (x ∷ xs) ys (suc i) h = at-append_left xs ys i (omega arith)

at-take : (n : ℕ) (xs : List ℕ) (i : ℕ) → i < n → at (take n xs) i ≡ at xs i
at-take zero xs i h = absurd (omega arith)
at-take (suc n) [] i h = refl
at-take (suc n) (x ∷ xs) zero h = refl
at-take (suc n) (x ∷ xs) (suc i) h = at-take n xs i (omega arith)

at-drop : (n : ℕ) (xs : List ℕ) (i : ℕ) → at (drop n xs) i ≡ at xs (n + i)
at-drop zero xs i = let e : i ≡ 0 + i = omega arith in ap (at xs) e
at-drop (suc n) [] i = refl
at-drop (suc n) (x ∷ xs) i =
    let e : suc (n + i) ≡ suc n + i = omega arith in at-drop n xs i ∙ ap (at (x ∷ xs)) e

-- The copy is at its place.
copy_to-in :
    (p : ℕ) (bytes ecm : List ℕ) (j : ℕ)
    → p ≤ length ecm
    → j < length bytes
    → at (copy_to p bytes ecm) (p + j) ≡ at bytes j
copy_to-in p bytes ecm j h k =
    let e : p + j ≡ length (take p ecm) + j = omega (arith, length-take p ecm) in
    ap (at (copy_to p bytes ecm)) e
    ∙ at-append_right (take p ecm) (bytes ++ drop (p + length bytes) ecm) j
    ∙ at-append_left bytes (drop (p + length bytes) ecm) j k

-- The bytes behind the copy stay.
copy_to-past :
    (p : ℕ) (bytes ecm : List ℕ) (i : ℕ)
    → p ≤ length ecm
    → p + length bytes ≤ i
    → at (copy_to p bytes ecm) i ≡ at ecm i
copy_to-past p bytes ecm i h k =
    let rest = drop (p + length bytes) ecm in
    let j = i - (p + length bytes) in
    let e : i ≡ length (take p ecm) + (length bytes + j) = omega (arith, length-take p ecm) in
    let f : p + length bytes + j ≡ i = omega arith in
    ap (at (copy_to p bytes ecm)) e
    ∙ at-append_right (take p ecm) (bytes ++ rest) (length bytes + j)
    ∙ at-append_right bytes rest j
    ∙ at-drop (p + length bytes) ecm j
    ∙ ap (at ecm) f

length-copy_to :
    (p : ℕ) (bytes ecm : List ℕ)
    → p + length bytes ≤ length ecm
    → length (copy_to p bytes ecm) ≡ length ecm
length-copy_to p bytes ecm h = omega (
  arith,
  length-append (take p ecm) (bytes ++ drop (p + length bytes) ecm),
  length-append bytes (drop (p + length bytes) ecm),
  length-take p ecm,
  length-drop (p + length bytes) ecm,
)

-- The headers are ten bytes long, and what `beta_bytes` writes behind them are places 1 and 12.
beta_bytes-lem :
    (l : ℕ) (ecm : List ℕ) (j : ℕ)
    → l ≤ 258
    → length ecm ≡ 512
    → j < l - 3
    → (length (beta_bytes l ecm) ≡ 512) × (at (beta_bytes l ecm) (13 + j) ≡ at ecm (3 + j))
unfolding beta_bytes
beta_bytes-lem l ecm j h full k =
    let pay = take (l - 3) (drop 3 ecm) in
    let size : length pay ≡ l - 3 =
      omega (arith, length-take (l - 3) (drop 3 ecm), length-drop 3 ecm) in
    let moved = copy_to 13 pay ecm in
    let m : at moved (13 + j) ≡ at ecm (3 + j) =
      copy_to-in 13 pay ecm j (omega arith) (omega arith)
      ∙ at-take (l - 3) (drop 3 ecm) j k
      ∙ at-drop 3 ecm j in
    let n : length moved ≡ 512 = length-copy_to 13 pay ecm (omega arith) ∙ full in
    elim (Bool-cases (ltb 0x88 l)) [
      | inr e ↦
          rw (e, beta_bytes)
            (
              length-copy_to 3 header_n2 moved (omega arith) ∙ n,
              copy_to-past 3 header_n2 moved (13 + j) (omega arith) (omega arith) ∙ m,
            )
      | inl e ↦
          let headed = copy_to 3 header_n3 moved in
          let len = length-copy_to 3 header_n3 moved (omega arith) ∙ n in
          let past = copy_to-past 3 header_n3 moved (13 + j) (omega arith) (omega arith) ∙ m in
          elim (Bool-cases (at headed 0 == 0x81)) [
            | inr f ↦
                rw (e, f, beta_bytes)
                  (
                    length-set headed 1 0x70 ∙ len,
                    get_or-set_ne headed 1 (13 + j) 0x70 0 (λ z. omega arith) ∙ past,
                  )
            | inl f ↦
                let other = set headed 12 (u8 (at headed 12 + 1)) in
                rw (e, f, beta_bytes)
                  (
                    length-set other 1 0x70 ∙ length-set headed 12 _ ∙ len,
                    get_or-set_ne other 1 (13 + j) 0x70 0 (λ z. omega arith)
                        ∙ get_or-set_ne headed 12 (13 + j) _ 0 (λ z. omega arith)
                        ∙ past,
                  )
          ]
    ]

-- An ECM whose length is its third byte and the three before it, so that it is shorter than 259
-- bytes, is tunnelled in the same array of 512 bytes, becomes ten bytes longer, and has its whole
-- payload behind the header of ten bytes.
pub convert_to_beta-payload :
    (er : Request) (caidto j : ℕ)
    → length er.ecm ≡ 512
    → at er.ecm 2 < 256
    → er.l ≡ at er.ecm 2 + 3
    → j < er.l - 3
    → (length (convert_to_beta er caidto).ecm ≡ 512)
      × ((convert_to_beta er caidto).l ≡ er.l + 10)
      × (at (convert_to_beta er caidto).ecm (13 + j) ≡ at er.ecm (3 + j))
unfolding convert_to_beta
convert_to_beta-payload er caidto j full byte short k =
    let l = at er.ecm 2 + 3 in
    let (len, same) = beta_bytes-lem l er.ecm j (omega arith) full (omega arith) in
    (
      length-set (beta_bytes l er.ecm) 2 _ ∙ len,
      omega arith,
      get_or-set_ne (beta_bytes l er.ecm) 2 (13 + j) _ 0 (λ z. omega arith) ∙ same,
    )

-- The length in the header is that of the tunnelled ECM, as long as the old one leaves room for ten
-- more in its low byte.
pub convert_to_beta-length :
    (er : Request) (caidto : ℕ)
    → length er.ecm ≡ 512
    → 0 < at er.ecm 2
    → at er.ecm 2 + 10 < 256
    → at (convert_to_beta er caidto).ecm 2 + 3 ≡ (convert_to_beta er caidto).l
unfolding convert_to_beta
convert_to_beta-length er caidto full some_byte room =
    let l = at er.ecm 2 + 3 in
    let (len, _) = beta_bytes-lem l er.ecm 0 (omega arith) full (omega arith) in
    let set_there = get_or-set_self (beta_bytes l er.ecm) 2 (u8 (l + 10 - 3)) 0 (omega arith) in
    omega (arith, set_there)
