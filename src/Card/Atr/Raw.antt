-- ===== src/Card/Atr/Raw.antt =====
-- About the loop of `ATR_InitFromArray`: the bytes that its rows were read from.
use mathlib.Core.List.{append_assoc, append-nil}
use oscam_vdr.Base.{
  ℕ, zero, suc, ◌+◌, ◌-◌, ◌≤◌, ◌<◌, ◌≡◌, refl, ap, sym, ◌∙◌, bit_and, Bool, true, false, ◌&&◌, not,
  to_int, inl, inr, ◌⊎◌, Option, none, some, List, [], ◌∷◌, ◌++◌, ◌==◌, ==_iff, leb, ltb,
  if◌then◌else◌, take, drop, length, All, all_below, all_below_sound, Bool-cases, length-take,
  arith,
}
use oscam_vdr.Card.Atr.{IbRow, Atr, Parsing, ok, malformed, overrun, ◌>>=◌}
use oscam_vdr.Card.Atr.Parse.{
  at, has, num_ib, read_ib, IbState, add_row, ib_row, ib_loop, fit_history, check_first, stored,
  finish_with, finish,
}
use oscam_vdr.Card.Atr.Values.{byte_if, row_bytes, rows_bytes, get_raw}

-- `xs` are the bytes of the buffer behind position `p` up to position `q`.
abbrev pub Between : List ℕ → ℕ → List ℕ → ℕ → Type 0
Between buffer p xs q = take (p + 1) buffer ++ xs ≡ take (q + 1) buffer

Between-nil : (buffer : List ℕ) (p : ℕ) → Between buffer p [] p
Between-nil buffer p = append-nil (take (p + 1) buffer)

Between-append :
    (buffer : List ℕ) (p q r : ℕ) (xs ys : List ℕ)
    → Between buffer p xs q
    → Between buffer q ys r
    → Between buffer p (xs ++ ys) r
Between-append buffer p q r xs ys h k =
    sym (append_assoc (take (p + 1) buffer) xs ys) ∙ ap (λ (t : List ℕ). t ++ ys) h ∙ k

take-suc : (n : ℕ) (xs : List ℕ) → n < length xs → take n xs ++ (at xs n ∷ []) ≡ take (suc n) xs
take-suc n [] h = absurd (omega arith)
take-suc zero (x ∷ xs) h = refl
take-suc (suc n) (x ∷ xs) h = ap (λ (t : List ℕ). x ∷ t) (take-suc n xs (omega arith))

Between-one :
    (buffer : List ℕ) (p : ℕ)
    → p + 1 < length buffer
    → Between buffer p (at buffer (p + 1) ∷ []) (p + 1)
Between-one buffer p h =
    take-suc (p + 1) buffer h ∙ ap (λ (t : ℕ). take t buffer) {x = suc (p + 1)} (omega arith)

take-nil : (n : ℕ) → take {A = ℕ} n [] ≡ []
take-nil zero = refl
take-nil (suc n) = refl

take-more : (n m k : ℕ) (xs : List ℕ) → n + m ≡ k → take n xs ++ take m (drop n xs) ≡ take k xs
take-more zero m k xs h = ap (λ (t : ℕ). take t xs) {x = m} (omega arith)
take-more (suc n) m k [] h = take-nil m ∙ sym (take-nil k)
take-more (suc n) m zero (x ∷ xs) h = absurd (omega arith)
take-more (suc n) m (suc k) (x ∷ xs) h =
    ap (λ (t : List ℕ). x ∷ t) (take-more n m k xs (omega arith))

Between-more : (buffer : List ℕ) (p n : ℕ) → Between buffer p (take n (drop (p + 1) buffer)) (p + n)
Between-more buffer p n = take-more (p + 1) n (p + n + 1) buffer (omega arith)

read_ib-Between :
    (b : Bool) (buffer : List ℕ) (p : ℕ)
    → p + to_int b < length buffer
    → Between buffer p (byte_if (read_ib b buffer p).0) (read_ib b buffer p).1
      × ((read_ib b buffer p).1 ≡ p + to_int b)
read_ib-Between true buffer p h = (Between-one buffer p h, refl)
read_ib-Between false buffer p h = (Between-nil buffer p, omega arith)

count_table :
    all_below 256 (λ td.
      num_ib td
      == to_int (has td 0xef) + to_int (has td 0xdf) + to_int (has td 0xbf) + to_int (has td 0x7f))
    ≡ true
unfolding all_below
count_table = refl

num_ib_count :
    (td : ℕ)
    → td < 256
    → num_ib td
      ≡ to_int (has td 0xef) + to_int (has td 0xdf) + to_int (has td 0xbf) + to_int (has td 0x7f)
num_ib_count td h = (==_iff _ _).0 (all_below_sound 256 _ td count_table h)

-- An outcome of the loop: the bytes of the rows are those behind `p`, within the buffer.
abbrev pub Reads : List ℕ → ℕ → Parsing IbState → Type 0
Reads buffer p malformed = Unit
Reads buffer p overrun = Unit
Reads buffer p (ok s) = Between buffer p (rows_bytes s.rows) s.pointer × (s.pointer < length buffer)

Reads-add_row :
    (buffer : List ℕ) (p q : ℕ) (r : IbRow) (next : Parsing IbState)
    → Between buffer p (row_bytes r) q
    → Reads buffer q next
    → Reads buffer p (next >>= λ s. ok (add_row r s))
unfolding rows_bytes
Reads-add_row buffer p q r malformed h k = tt
Reads-add_row buffer p q r overrun h k = tt
Reads-add_row buffer p q r (ok s) h k =
    (Between-append buffer p q s.pointer (row_bytes r) (rows_bytes s.rows) h k.0, k.1)

pub at-byte : (bs : List ℕ) (i : ℕ) → All (λ x. x < 256) bs → at bs i < 256
at-byte [] i h = omega arith
at-byte (b ∷ bs) zero h = h.0
at-byte (b ∷ bs) (suc i) h = at-byte bs i h.1

Reads-last :
    (buffer : List ℕ) (p q : ℕ) (r : IbRow) (pn : ℕ) (tck : Bool)
    → Between buffer p (row_bytes r) q
    → q < length buffer
    → Reads buffer p (ok (record { rows = r ∷ []; pointer = q; pn = pn; tck_present = tck }))
unfolding rows_bytes
Reads-last buffer p q r pn tck h k =
    (Between-append buffer p q q (row_bytes r) [] h (Between-nil buffer q), k)

ib_row-Reads :
    (buffer : List ℕ) (p td pn : ℕ) (tck : Bool) (next : ℕ → ℕ → ℕ → Bool → Parsing IbState)
    → td < 256
    → p + num_ib td < length buffer
    → ((q td' pn' : ℕ) (tck' : Bool)
        → q < length buffer
        → td' ≡ at buffer q
        → Reads buffer q (next q td' pn' tck'))
    → Reads buffer p (ib_row buffer p td pn tck next)
unfolding ib_row
ib_row-Reads buffer p td pn tck next small fits ih =
    let count = num_ib_count td small in
    let ra = read_ib-Between (has td 0xef) buffer p (omega arith) in
    let a = read_ib (has td 0xef) buffer p in
    let rb = read_ib-Between (has td 0xdf) buffer a.1 (omega arith) in
    let b = read_ib (has td 0xdf) buffer a.1 in
    let rc = read_ib-Between (has td 0xbf) buffer b.1 (omega arith) in
    let c = read_ib (has td 0xbf) buffer b.1 in
    elim (Bool-cases (has td 0x7f)) [
      | inl more ↦
          let one : to_int (has td 0x7f) ≡ 1 = ap to_int more in
          rw more (
            Reads-add_row buffer p (c.1 + 1) _ (next (c.1 + 1) (at buffer (c.1 + 1)) (pn + 1) _)
              (Between-append buffer p a.1 (c.1 + 1) (byte_if a.0) _ ra.0 (
                Between-append buffer a.1 b.1 (c.1 + 1) (byte_if b.0) _ rb.0 (
                  Between-append buffer b.1 c.1 (c.1 + 1) (byte_if c.0) _ rc.0
                    (Between-one buffer c.1 (omega arith)))))
              (ih (c.1 + 1) (at buffer (c.1 + 1)) (pn + 1) _ (omega arith) refl))
      | inr last ↦ rw last (
          Reads-last buffer p c.1 _ pn tck
            (Between-append buffer p a.1 c.1 (byte_if a.0) _ ra.0 (
              Between-append buffer a.1 b.1 c.1 (byte_if b.0) _ rb.0
                (Between-append buffer b.1 c.1 c.1 (byte_if c.0) _ rc.0 (Between-nil buffer c.1))))
            (omega arith))
    ]

pub ib_loop-Reads :
    (left : ℕ) (buffer : List ℕ) (p td pn : ℕ) (tck : Bool)
    → All (λ b. b < 256) buffer
    → td < 256
    → p < length buffer
    → Reads buffer p (ib_loop left buffer (length buffer) p td pn tck)
unfolding ib_loop
ib_loop-Reads zero buffer p td pn tck bytes small h = ground arith
ib_loop-Reads (suc left) buffer p td pn tck bytes small h =
    let inside : ltb p (length buffer) ≡ true = ground arith in
    elim (Bool-cases (leb (length buffer) (p + num_ib td))) [
      | inl short ↦ rw inside (rw short tt)
      | inr fits ↦ rw inside (
          rw fits (
            ib_row-Reads buffer p td pn tck (ib_loop left buffer (length buffer)) small
              (ground arith)
              λ q td' pn' tck' lt e.
                ib_loop-Reads left buffer q td' pn' tck' bytes (rw e (at-byte buffer q bytes)) lt))
    ]

-- A stored ATR whose raw bytes are the first of the buffer, which has that many.
abbrev pub IsRead : List ℕ → Parsing Atr → Type 0
IsRead buffer malformed = Unit
IsRead buffer overrun = Unit
IsRead buffer (ok atr) =
    (get_raw atr ≡ take atr.size buffer)
    × (atr.size ≤ length buffer)
    × (length (get_raw atr) ≡ atr.size)

take-two : (buffer : List ℕ) → 2 ≤ length buffer → take 2 buffer ≡ at buffer 0 ∷ at buffer 1 ∷ []
take-two [] h = absurd (omega arith)
take-two (a ∷ []) h = absurd (omega arith)
take-two (a ∷ b ∷ rest) h = refl

Between-start :
    (buffer : List ℕ) (q : ℕ) (xs : List ℕ)
    → 2 ≤ length buffer
    → Between buffer 1 xs q
    → at buffer 0 ∷ at buffer 1 ∷ xs ≡ take (q + 1) buffer
Between-start buffer q xs two h = ap (λ (t : List ℕ). t ++ xs) (sym (take-two buffer two)) ∙ h

stored-IsRead :
    (buffer : List ℕ) (s : IbState) (hbn : ℕ) (tck : Option ℕ) (q : ℕ)
    → 2 ≤ length buffer
    → Between buffer 1 (rows_bytes s.rows) s.pointer
    → Between buffer (s.pointer + hbn) (byte_if tck) q
    → q < length buffer
    → IsRead buffer (ok (stored buffer s hbn tck (q + 1)))
unfolding get_raw
stored-IsRead buffer s hbn tck q two rows last h =
    let whole = Between-append buffer 1 s.pointer q (rows_bytes s.rows) _ rows (
      Between-append buffer s.pointer (s.pointer + hbn) q (take hbn (drop (s.pointer + 1) buffer))
        (byte_if tck) (Between-more buffer s.pointer hbn) last) in
    let raw = Between-start buffer q _ two whole in
    (raw, omega arith, ap length raw ∙ omega (arith, length-take (q + 1) buffer))

choose :
    (buffer : List ℕ) (tck short valid : Bool) (with_tck without : Atr)
    → (short ≡ false → IsRead buffer (ok with_tck))
    → IsRead buffer (ok without)
    → IsRead buffer (
        if tck && short
        then malformed
        else if not valid
        then malformed
        else if tck
        then ok with_tck
        else ok without)
choose buffer true true valid a b h k = tt
choose buffer true false false a b h k = tt
choose buffer true false true a b h k = h refl
choose buffer false short false a b h k = tt
choose buffer false short true a b h k = k

finish_with-IsRead :
    (buffer : List ℕ) (s : IbState) (hbn : ℕ)
    → 2 ≤ length buffer
    → Between buffer 1 (rows_bytes s.rows) s.pointer
    → s.pointer + hbn < length buffer
    → IsRead buffer (finish_with buffer (length buffer) s hbn)
unfolding finish_with
finish_with-IsRead buffer s hbn two rows h =
    choose buffer s.tck_present (leb (length buffer) (s.pointer + hbn + 1)) (check_first s.rows) _ _
      (λ l.
        let fits : s.pointer + hbn + 1 < length buffer = ground arith in
        stored-IsRead buffer s hbn (some (at buffer (s.pointer + hbn + 1))) (s.pointer + hbn + 1)
          two rows (Between-one buffer (s.pointer + hbn) fits) fits)
      (stored-IsRead buffer s hbn none (s.pointer + hbn) two rows
        (Between-nil buffer (s.pointer + hbn)) h)

fit_history-lt :
    (len pointer hbn : ℕ)
    → pointer < len
    → (fit_history len pointer hbn ≡ none)
      ⊎ ((n : ℕ) × (fit_history len pointer hbn ≡ some n) × (pointer + n < len))
unfolding fit_history
fit_history-lt len pointer hbn h = elim (Bool-cases (leb len (pointer + hbn))) [
  | inr fits ↦ rw fits (inr (hbn, refl, ground arith))
  | inl short ↦ elim (Bool-cases (leb 2 (len - pointer))) [
    | inl some_left ↦ rw short (rw some_left (inr (len - pointer - 2, refl, ground arith)))
    | inr none_left ↦ rw short (rw none_left (inl refl))
  ]
]

finish-IsRead :
    (buffer : List ℕ) (s : IbState)
    → 2 ≤ length buffer
    → Between buffer 1 (rows_bytes s.rows) s.pointer
    → s.pointer < length buffer
    → IsRead buffer (finish buffer (length buffer) s)
unfolding finish
finish-IsRead buffer s two rows h =
    elim (fit_history-lt (length buffer) s.pointer (bit_and (at buffer 1) 0x0f) h) [
      | inl e ↦ rw (e, finish) tt
      | inr (n, e, lt) ↦ rw (e, finish) (finish_with-IsRead buffer s n two rows lt)
    ]

pub Reads-finish :
    (buffer : List ℕ) (r : Parsing IbState)
    → 2 ≤ length buffer
    → Reads buffer 1 r
    → IsRead buffer (r >>= finish buffer (length buffer))
Reads-finish buffer malformed two h = tt
Reads-finish buffer overrun two h = tt
Reads-finish buffer (ok s) two h = finish-IsRead buffer s two h.0 h.1
