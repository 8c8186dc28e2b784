-- ===== src/Card/T1Exchange/Response.antt =====
-- About the response to a command, and the bytes of a block on the line.
use oscam_vdr.Base.{
  ℕ, ◌+◌, ◌≤◌, ◌<◌, ◌≡◌, ◌≢◌, refl, ap, sym, ◌∙◌, Bool, true, false, Option, none, some, List, [],
  ◌∷◌, ◌++◌, ltb, ◌==◌, nonzero, if◌then◌else◌, take, drop, length, length-append, length-take,
  take-length, All, Bool-cases, ◌⊎◌, inl, inr, arith, u16,
}
use oscam_vdr.Card.T1Block.{
  T1Block, type_i, max_size, new, make, closed, new_i_block, get_type, get_more, get_len, get_inf,
  lrc, i_pcb,
}
use oscam_vdr.Card.T1Exchange.{
  rsp_ok, s_wtx_req, Round, Outcome, after, inf_of, lacks_inf, grown, respond, receive_block,
}
use oscam_vdr.Card.T1Exchange.Chain.{acks}

-- The block has the bytes that its length promises, and its head and check sum.
abbrev pub IsWhole : T1Block → Type 0
IsWhole b = get_len b + 4 ≤ b.size

pub whole : (b : T1Block) → IsWhole b → lacks_inf b ≡ false
whole b h = ground arith

-- A chained I-block, or a request for more time with its byte.
abbrev pub Going : T1Block → Type 0
Going b =
    (IsWhole b × (get_type b ≡ type_i) × (get_more b ≢ 0))
    ⊎ ((get_type b ≡ s_wtx_req) × (5 ≤ b.size))

-- What the I-blocks among the blocks carry.
abbrev pub carried : List T1Block → List ℕ
carried [] = []
carried (b ∷ bs) = (if get_type b == type_i then inf_of b else []) ++ carried bs

pub rsp-after : (o : Option T1Block) (r : Outcome) → (after o r).rsp ≡ r.rsp
rsp-after none r = refl
rsp-after (some b) r = refl

append_assoc : (xs ys zs : List ℕ) → (xs ++ ys) ++ zs ≡ xs ++ (ys ++ zs)
append_assoc [] ys zs = refl
append_assoc (x ∷ xs) ys zs = ap (λ (t : List ℕ). x ∷ t) (append_assoc xs ys zs)

grown_lem : (xs ys : List ℕ) → length xs + length ys < 65536 → grown xs ys ≡ xs ++ ys
grown_lem xs ys h =
    let e : u16 (length (xs ++ ys)) ≡ length (xs ++ ys) = omega (arith, length-append xs ys) in
    rw e (take-length (xs ++ ys))

respond-carried :
    (going : List T1Block) (b : T1Block) (rest : List Round) (ns : ℕ) (buffer : List ℕ) (ok : Bool)
    → All Going going
    → get_type b ≡ type_i
    → get_more b ≡ 0
    → IsWhole b
    → length buffer + (length (carried going) + length (inf_of b)) < 65536
    → (respond (acks going ++ (record { received = some b; sent_ok = ok } ∷ rest)) ns buffer).rsp
      ≡ rsp_ok (buffer ++ (carried going ++ inf_of b))
unfolding respond get_inf
respond-carried [] b rest ns buffer ok a t m w s =
    rw (t, whole b w, m, grown_lem buffer (inf_of b) (omega arith)) refl
respond-carried (c ∷ cs) b rest ns buffer ok a t m w s = elim a.0 [
  | inl (v, k, n) ↦
      let go_on : nonzero (get_more c) ≡ true = ground arith in
      let is_i : (get_type c == type_i) ≡ true = ground arith in
      let size : length (carried (c ∷ cs)) ≡ length (inf_of c) + length (carried cs) =
        rw is_i (length-append (inf_of c) (carried cs)) in
      rw (k, whole c v, go_on, grown_lem buffer (inf_of c) (omega arith))
        (rsp-after _ _
          ∙ respond-carried cs b rest ns (buffer ++ inf_of c) ok a.1 t m w
              (omega (arith, length-append buffer (inf_of c)))
          ∙ ap (λ (x : List ℕ). rsp_ok x)
              (append_assoc buffer (inf_of c) (carried cs ++ inf_of b)
                ∙ ap (λ (x : List ℕ). buffer ++ x)
                    (sym (append_assoc (inf_of c) (carried cs) (inf_of b)))))
  | inr (k, long) ↦
      let has_byte : ltb c.size 5 ≡ false = ground arith in
      let is_wtx : (get_type c == type_i) ≡ false = ground arith in
      let size : length (carried (c ∷ cs)) ≡ length (carried cs) = rw is_wtx refl in
      rw (k, has_byte)
        (rsp-after _ _ ∙ respond-carried cs b rest ns buffer ok a.1 t m w (omega arith))
]

-- A response is what its I-blocks carry, one behind the other: whole chained blocks, which
-- are acknowledged, and requests for more time with their byte, which are granted, up to an I-block without a
-- successor, if there are less than 65536 bytes.
pub respond_lem :
    (going : List T1Block) (b : T1Block) (rest : List Round) (ns : ℕ) (ok : Bool)
    → All Going going
    → get_type b ≡ type_i
    → get_more b ≡ 0
    → IsWhole b
    → length (carried going) + length (inf_of b) < 65536
    → (respond (acks going ++ (record { received = some b; sent_ok = ok } ∷ rest)) ns []).rsp
      ≡ rsp_ok (carried going ++ inf_of b)
respond_lem going b rest ns ok a t m w s =
    respond-carried going b rest ns [] ok a t m w (omega arith)

empty : (xs : List ℕ) → length xs ≡ 0 → xs ≡ []
empty [] e = refl
empty (x ∷ xs) e = absurd (omega arith)

-- Some bytes and one more are one and some more.
snoc_view :
    (xs : List ℕ) (y : ℕ)
    → (d : ℕ) × (rest : List ℕ) × (xs ++ (y ∷ []) ≡ d ∷ rest) × (length rest ≡ length xs)
snoc_view [] y = (y, [], refl, refl)
snoc_view (x ∷ xs) y = (x, xs ++ (y ∷ []), refl, omega (arith, length-append xs (y ∷ [])))

receive_split :
    (a b c d : ℕ) (rest : List ℕ)
    → length rest ≡ c
    → c < 256
    → receive_block (some (a ∷ b ∷ c ∷ d ∷ [])) (some rest)
      ≡ some (record { data_bytes = a ∷ b ∷ c ∷ d ∷ rest; size = length (a ∷ b ∷ c ∷ d ∷ rest) })
unfolding receive_block new
receive_split a b c d rest e h = elim (Bool-cases (c == 0)) [
  | inl z ↦ let n = empty rest (ground arith) in rw (z, n) refl
  | inr z ↦
      let all = a ∷ b ∷ c ∷ d ∷ rest in
      let size : c + 4 ≡ length all = omega arith in
      let t1 : ltb (length all) 4 ≡ false = ground arith in
      let t2 : ltb max_size (length all) ≡ false = ground arith in
      rw (z, size) (rw (t1, t2) (ap (make true) (take-length all)))
]

-- The bytes of an I-block, received as the driver delivers them, first four and then the others,
-- are the block again.
pub receive_block-new_i_block :
    (len ns : ℕ) (more : Bool) (inf : List ℕ)
    → len < 256
    → len ≤ length inf
    → (b : T1Block) × (new_i_block true len inf ns more ≡ some b)
      × (receive_block (some (take 4 b.data_bytes)) (some (drop 4 b.data_bytes)) ≡ some b)
unfolding new_i_block
receive_block-new_i_block len ns more inf h k =
    let head = 0 ∷ i_pcb ns more ∷ len ∷ [] in
    let check = lrc (0 ∷ i_pcb ns more ∷ len ∷ take len inf) in
    let (d, rest, e, n) = snoc_view (take len inf) check in
    (
      record {
        data_bytes = closed (0 ∷ i_pcb ns more ∷ len ∷ take len inf);
        size = length (closed (0 ∷ i_pcb ns more ∷ len ∷ take len inf));
      },
      refl,
      rw e (receive_split 0 (i_pcb ns more) len d rest (omega (arith, n, length-take len inf)) h),
    )
