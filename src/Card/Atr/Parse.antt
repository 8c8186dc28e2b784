-- ===== src/Card/Atr/Parse.antt =====
-- `ATR_InitFromArray`. What a refused ATR leaves in the structure is not modelled: it is not read.
use oscam_vdr.Base.{
  ℕ, zero, suc, ◌+◌, ◌-◌, ◌*◌, ◌/◌, bit_and, bit_or, Bool, true, false, ◌&&◌, not, Option, none,
  some, List, [], ◌∷◌, map, ◌==◌, leb, ltb, if◌then◌else◌, get_or, take, drop,
}
use oscam_vdr.Card.Atr.{IbRow, Atr, Parsing, ok, malformed, overrun, ◌>>=◌}

abbrev pub at : List ℕ → ℕ → ℕ
at b i = get_or b i 0

abbrev pub atr_fs_table : List ℕ
atr_fs_table =
    4000000 ∷ 5000000 ∷ 6000000 ∷ 8000000 ∷ 12000000 ∷ 16000000 ∷ 20000000 ∷ 0 ∷ 0 ∷ 5000000
    ∷ 7500000 ∷ 10000000 ∷ 15000000 ∷ 20000000 ∷ 0 ∷ 0 ∷ []

abbrev pub atr_num_ib_table : List ℕ
atr_num_ib_table = 0 ∷ 1 ∷ 1 ∷ 2 ∷ 1 ∷ 2 ∷ 2 ∷ 3 ∷ 1 ∷ 2 ∷ 2 ∷ 3 ∷ 2 ∷ 3 ∷ 3 ∷ 4 ∷ []

-- The macro `INVERT_BYTE`: the bits in the reverse order.
unfoldable pub invert_byte : ℕ → ℕ
invert_byte a =
    bit_or
      (bit_or
        (bit_or
          (bit_or
            (bit_or
              (bit_or (bit_or (bit_and (a * 128) 0x80) (bit_and (a * 32) 0x40))
                (bit_and (a * 8) 0x20))
              (bit_and (a * 2) 0x10))
            (bit_and (a / 2) 0x08))
          (bit_and (a / 8) 0x04))
        (bit_and (a / 32) 0x02))
      (bit_and (a / 128) 0x01)

-- `buffer`: the first `length` bytes, with all bits inverted and reversed where the first is 3.
unfoldable pub normalise : List ℕ → ℕ → List ℕ
normalise atr_buffer len =
    if at atr_buffer 0 == 3
    then map (λ b. 255 - invert_byte b) (take len atr_buffer)
    else take len atr_buffer

-- `(TDi | mask) == 0xFF`
abbrev pub has : ℕ → ℕ → Bool
has td mask = bit_or td mask == 0xff

-- `atr_num_ib_table[(0xF0 & TDi) >> 4]`
abbrev pub num_ib : ℕ → ℕ
num_ib td = at atr_num_ib_table (bit_and 0xf0 td / 16)

-- An interface byte behind `pointer`, if it is there, and the pointer then.
abbrev pub read_ib : Bool → List ℕ → ℕ → Option ℕ × ℕ
read_ib true buffer pointer = (some (at buffer (pointer + 1)), pointer + 1)
read_ib false buffer pointer = (none, pointer)

-- The local variables behind the loop, and the rows that it wrote.
pub record IbState : Type 0 where
  pub rows : List IbRow
  pub pointer : ℕ
  pub pn : ℕ
  pub tck_present : Bool

abbrev pub add_row : IbRow → IbState → IbState
add_row r s = record s { rows = r ∷ s.rows }

-- One row of `ib`. `next` goes on with the pointer, TDi, `pn` and `TCK.present`.
unfoldable pub ib_row :
    List ℕ → ℕ → ℕ → ℕ → Bool → (ℕ → ℕ → ℕ → Bool → Parsing IbState) → Parsing IbState
ib_row buffer pointer td pn tck next =
    let a = read_ib (has td 0xef) buffer pointer in
    let b = read_ib (has td 0xdf) buffer a.1 in
    let c = read_ib (has td 0xbf) buffer b.1 in
    let td' = at buffer (c.1 + 1) in
    if has td 0x7f
    then (next (c.1 + 1) td' (pn + 1) (not (bit_and td' 0x0f == 0)) >>= λ s.
        ok (add_row (record { ta = a.0; tb = b.0; tc = c.0; td = some td' }) s))
    else ok (record {
      rows = record { ta = a.0; tb = b.0; tc = c.0; td = none } ∷ [];
      pointer = c.1;
      pn = pn;
      tck_present = tck;
    })

-- The loop over the interface bytes, with `left` rows of `ib` from row `pn` on. The check of `pn`
-- stands behind the writes to `ib[pn]`, so it never fires before they overrun.
unfoldable pub ib_loop : ℕ → List ℕ → ℕ → ℕ → ℕ → ℕ → Bool → Parsing IbState
ib_loop zero buffer len pointer td pn tck =
    if not (ltb pointer len)
    then ok (record { rows = []; pointer = pointer; pn = pn; tck_present = tck })
    else if leb len (pointer + num_ib td)
    then malformed
    else overrun
ib_loop (suc left) buffer len pointer td pn tck =
    if not (ltb pointer len)
    then ok (record { rows = []; pointer = pointer; pn = pn; tck_present = tck })
    else if leb len (pointer + num_ib td)
    then malformed
    else ib_row buffer pointer td pn tck (ib_loop left buffer len)

-- The number of historical bytes: as many as there are, less one, if the ATR promises more. None
-- where not even that can be.
unfoldable pub fit_history : ℕ → ℕ → ℕ → Option ℕ
fit_history len pointer hbn =
    if leb len (pointer + hbn)
    then (if leb 2 (len - pointer) then some (len - pointer - 2) else none)
    else some hbn

abbrev pub fi_valid : Option ℕ → Bool
fi_valid none = true
fi_valid (some ta) = not (at atr_fs_table (bit_and ta 0xf0 / 16) == 0)

abbrev pub tb_valid : Option ℕ → Bool
tb_valid none = true
tb_valid (some tb) = leb tb 0x80

-- The checks of TA1 and TB1 where there is one protocol.
unfoldable pub check_first : List IbRow → Bool
check_first [] = true
check_first (r ∷ []) = fi_valid r.ta && tb_valid r.tb
check_first (r ∷ s ∷ rs) = true

-- What is stored, with the historical bytes behind `pointer`.
abbrev pub stored : List ℕ → IbState → ℕ → Option ℕ → ℕ → Atr
stored buffer s hbn tck size = record {
  size = size;
  ts = at buffer 0;
  t0 = at buffer 1;
  ib = s.rows;
  tck = tck;
  pn = s.pn + 1;
  hb = take hbn (drop (s.pointer + 1) buffer);
}

-- Behind the historical bytes: TCK and the last checks.
unfoldable pub finish_with : List ℕ → ℕ → IbState → ℕ → Parsing Atr
unfolding check_first
finish_with buffer len s hbn =
    let pointer = s.pointer + hbn in
    if s.tck_present && leb len (pointer + 1)
    then malformed
    else if not (check_first s.rows)
    then malformed
    else if s.tck_present
    then ok (stored buffer s hbn (some (at buffer (pointer + 1))) (pointer + 1 + 1))
    else ok (stored buffer s hbn none (pointer + 1))

-- Behind the loop.
unfoldable pub finish : List ℕ → ℕ → IbState → Parsing Atr
finish buffer len s = elim (fit_history len s.pointer (bit_and (at buffer 1) 0x0f)) [
  | none ↦ malformed
  | some hbn ↦ finish_with buffer len s hbn
]

abbrev pub atr_max_protocols : ℕ
atr_max_protocols = 7

unfoldable pub init_from_array : List ℕ → ℕ → Parsing Atr
init_from_array atr_buffer len =
    if ltb len 2
    then malformed
    else (let buffer = normalise atr_buffer len in
        ib_loop atr_max_protocols buffer len 1 (at buffer 1) 0 false >>= finish buffer len)
