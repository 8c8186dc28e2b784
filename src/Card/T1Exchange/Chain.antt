-- ===== src/Card/T1Exchange/Chain.antt =====
-- About a command that is sent in several blocks.
use mathlib.Core.Path.{subst}
use oscam_vdr.Base.{
  ℕ, zero, suc, ◌+◌, ◌*◌, ◌≤◌, ◌<◌, ◌≡◌, ◌≢◌, refl, ap, ap₂, sym, ◌∙◌, true, false, some, List, [],
  ◌∷◌, ◌++◌, map, ltb, ◌==◌, get_or, take, drop, length, length-drop, take-append-drop, min, All,
  arith,
}
use oscam_vdr.Card.T1Block.{T1Block, get_type, get_len, get_inf}
use oscam_vdr.Card.T1Block.Fields.{new_i_block_fields}
use oscam_vdr.Card.T1Exchange.{
  r_ok, s_ifs_req, s_resynch_req, Round, Outcome, after, toggle, inf_of, respond, block_of,
  send_rest, t1_command,
}

-- The information of blocks, one behind the other.
abbrev pub payload : List T1Block → List ℕ
payload [] = []
payload (b ∷ bs) = inf_of b ++ payload bs

-- Rounds in which each block that was sent is acknowledged.
abbrev pub acks : List T1Block → List Round
acks bs = map (λ (b : T1Block). record { received = some b; sent_ok = true }) bs

abbrev pub toggles : ℕ → ℕ → ℕ
toggles zero ns = ns
toggles (suc n) ns = toggles n (toggle ns)

take-take_append : (n : ℕ) (xs ys : List ℕ) → n ≤ length xs → take n (take n xs ++ ys) ≡ take n xs
take-take_append zero xs ys h = refl
take-take_append (suc n) [] ys h = absurd (omega arith)
take-take_append (suc n) (x ∷ xs) ys h =
    ap (λ (t : List ℕ). x ∷ t) (take-take_append n xs ys (omega arith))

take-min : (n : ℕ) (xs : List ℕ) → take (min (length xs) n) xs ≡ take n xs
take-min zero xs = let e : min (length xs) 0 ≡ 0 = omega arith in rw e refl
take-min (suc n) [] = let e : min (length {A = ℕ} []) (suc n) ≡ 0 = omega arith in rw e refl
take-min (suc n) (x ∷ xs) =
    let e : min (length (x ∷ xs)) (suc n) ≡ suc (min (length xs) n) = omega arith in
    rw e (ap (λ (t : List ℕ). x ∷ t) (take-min n xs))

inf_of_lem :
    (b : T1Block) (len : ℕ) (bytes : List ℕ)
    → get_len b ≡ len
    → get_inf b ≡ some bytes
    → inf_of b ≡ take len bytes
inf_of_lem b len bytes n f = rw (inf_of, f, n) refl

-- The block with the next bytes is made, and carries them.
block_of_lem :
    (ifsc ns : ℕ) (left : List ℕ)
    → 0 < ifsc
    → ifsc < 256
    → ns < 256
    → 0 < length left
    → (b : T1Block) × (block_of ifsc ns left ≡ some b) × (inf_of b ≡ take ifsc left)
block_of_lem ifsc ns left i j k l =
    let len = min (length left) ifsc in
    let (b, e, t, s, m, n, f) =
      new_i_block_fields len ns (ltb ifsc (length left)) left k (ground arith) (ground arith) in
    (b, e, inf_of_lem b len _ n f ∙ take-take_append len left _ (ground arith) ∙ take-min ifsc left)

-- What the outcome has is: blocks that carry these bytes, and what the response adds.
abbrev pub Carries : List ℕ → Outcome → Outcome → Type 0
Carries bytes response o =
    (blocks : List T1Block) × (payload blocks ≡ bytes)
    × (o.sent ≡ blocks ++ response.sent)
    × (o.rsp ≡ response.rsp)

Carries-more :
    (b : T1Block) (xs ys : List ℕ) (response o : Outcome)
    → inf_of b ≡ xs
    → Carries ys response o
    → Carries (xs ++ ys) response (after (some b) o)
Carries-more b xs ys response o e (blocks, p, q, r) =
    (b ∷ blocks, ap₂ (λ (s t : List ℕ). s ++ t) e p, ap (λ (t : List T1Block). b ∷ t) q, r)

toggle-small : (ns : ℕ) → toggle ns < 256
toggle-small ns = ground arith

send_rest_done :
    (rest : List Round) (ifsc ns : ℕ) (left : List ℕ)
    → ltb ifsc (length left) ≡ false
    → send_rest rest ifsc ns left ≡ respond rest ns []
unfolding send_rest
send_rest_done [] ifsc ns left t = rw t refl
send_rest_done (r ∷ rs) ifsc ns left t = rw t refl

drop-all : (n : ℕ) (xs : List ℕ) → length xs ≤ n → drop n xs ≡ []
drop-all zero [] h = refl
drop-all zero (x ∷ xs) h = absurd (omega arith)
drop-all (suc n) [] h = refl
drop-all (suc n) (x ∷ xs) h = drop-all n xs (omega arith)

toggles_suc : (n ns : ℕ) → toggles (n + 1) ns ≡ toggles n (toggle ns)
toggles_suc n ns = let e : n + 1 ≡ suc n = omega arith in rw e refl

send_rest-Carries :
    (acked : List T1Block) (rest : List Round) (ifsc ns : ℕ) (left : List ℕ)
    → All (λ (b : T1Block). get_type b ≡ r_ok) acked
    → 0 < ifsc
    → ifsc < 256
    → ifsc * length acked < length left
    → length left ≤ ifsc * (length acked + 1)
    → Carries
        (drop ifsc left)
        (respond rest (toggles (length acked) ns) [])
        (send_rest (acks acked ++ rest) ifsc ns left)
unfolding send_rest
send_rest-Carries [] rest ifsc ns left a i j k l =
    let t : ltb ifsc (length left) ≡ false = ground arith in
    rw (send_rest_done rest ifsc ns left t) ([], sym (drop-all ifsc left (omega arith)), refl, refl)
send_rest-Carries (b ∷ bs) rest ifsc ns left a i j k l =
    let m = length bs in
    let left' = drop ifsc left in
    let e1 : ifsc * (1 + m) ≡ ifsc * m + ifsc = ground arith in
    let e2 : ifsc * (1 + m + 1) ≡ ifsc * (m + 1) + ifsc = ground arith in
    let shorter = length-drop ifsc left in
    let t : ltb ifsc (length left) ≡ true = ground arith in
    let (c, made, carries) =
      block_of_lem ifsc (toggle ns) left' i j (toggle-small ns) (omega arith) in
    let more =
      Carries-more c (take ifsc left') (drop ifsc left') (respond rest (toggles m (toggle ns)) [])
        (send_rest (acks bs ++ rest) ifsc (toggle ns) left') carries
        (send_rest-Carries bs rest ifsc (toggle ns) left' a.1 i j (omega arith) (omega arith)) in
    rw (t, a.0)
      (rw made (
        subst
          (λ (bytes : List ℕ).
            Carries bytes (respond rest (toggles m (toggle ns)) [])
              (after (some c) (send_rest (acks bs ++ rest) ifsc (toggle ns) left')))
          (take-append-drop ifsc left') more))

-- A command that takes several blocks is sent whole and in order: when each block but the last is
-- acknowledged, the blocks sent before the response carry its bytes one behind the other, and the
-- response is that of what comes behind.
pub t1_command-Carries :
    (acked : List T1Block) (rest : List Round) (ifsc ns : ℕ) (bytes : List ℕ)
    → All (λ (b : T1Block). get_type b ≡ r_ok) acked
    → 0 < ifsc
    → ifsc < 256
    → ifsc * length acked < length bytes
    → length bytes ≤ ifsc * (length acked + 1)
    → get_or bytes 1 0 ≢ s_ifs_req
    → get_or bytes 1 0 ≢ s_resynch_req
    → Carries bytes
        (respond rest (toggles (length acked + 1) ns) [])
        (t1_command true (acks acked ++ rest) ifsc ns bytes)
unfolding t1_command
t1_command-Carries acked rest ifsc ns bytes a i j k l u v =
    let tu : (get_or bytes 1 0 == s_ifs_req) ≡ false = ground arith in
    let tv : (get_or bytes 1 0 == s_resynch_req) ≡ false = ground arith in
    let (c, made, carries) =
      block_of_lem ifsc (toggle ns) bytes i j (toggle-small ns) (omega arith) in
    let last : toggles (length acked + 1) ns ≡ toggles (length acked) (toggle ns) =
      toggles_suc (length acked) ns in
    let more =
      Carries-more c (take ifsc bytes) (drop ifsc bytes)
        (respond rest (toggles (length acked) (toggle ns)) [])
        (send_rest (acks acked ++ rest) ifsc (toggle ns) bytes) carries
        (send_rest-Carries acked rest ifsc (toggle ns) bytes a i j k l) in
    rw (tu, tv, last)
      (rw made (
        subst
          (λ (t : List ℕ).
            Carries t (respond rest (toggles (length acked) (toggle ns)) [])
              (after (some c) (send_rest (acks acked ++ rest) ifsc (toggle ns) bytes)))
          (take-append-drop ifsc bytes) more))
