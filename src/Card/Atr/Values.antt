-- ===== src/Card/Atr/Values.antt =====
-- The readers of csctapi/atr.c: convention, protocols, interface bytes, integer values,
-- parameters, historical bytes, the raw bytes.
use oscam_vdr.Base.{
  ℕ, ◌-◌, ◌*◌, ◌/◌, bit_and, ◌||◌, Option, none, some, List, [], ◌∷◌, ◌++◌, ◌==◌, ltb,
  if◌then◌else◌, get_or, length,
}
use oscam_vdr.Card.Atr.{IbRow, Atr}
use oscam_vdr.Card.Atr.Parse.{at, atr_fs_table}

pub data Convention : Type 0 where
  direct inverse : Convention

-- None is `ATR_MALFORMED`.
unfoldable pub get_convention : Atr → Option Convention
get_convention atr =
    if atr.ts == 0x3b
    then some Convention.direct
    else if atr.ts == 0x3f
    then some Convention.inverse
    else none

abbrev pub get_size : Atr → ℕ
get_size atr = atr.size

abbrev pub get_number_of_protocols : Atr → ℕ
get_number_of_protocols atr = atr.pn

abbrev pub no_row : IbRow
no_row = record { ta = none; tb = none; tc = none; td = none }

abbrev pub row : Atr → ℕ → IbRow
row atr i = get_or atr.ib i no_row

abbrev pub protocol_of : Option ℕ → ℕ
protocol_of none = 0
protocol_of (some td) = bit_and td 0x0f

unfoldable pub get_protocol_type : Atr → ℕ → Option ℕ
get_protocol_type atr number =
    if ltb atr.pn number || ltb number 1 then none else some (protocol_of (row atr (number - 1)).td)

pub data Character : Type 0 where
  ta tb tc td : Character

abbrev pub ib_of : Character → IbRow → Option ℕ
ib_of Character.ta r = r.ta
ib_of Character.tb r = r.tb
ib_of Character.tc r = r.tc
ib_of Character.td r = r.td

unfoldable pub get_interface_byte : Atr → ℕ → Character → Option ℕ
get_interface_byte atr number character =
    if ltb atr.pn number || ltb number 1 then none else ib_of character (row atr (number - 1))

-- The names of integer values; `other` is any other number.
pub data IntegerName : Type 0 where
  fi di ii pi1 pi2 n other : IntegerName

abbrev pub map_some : (ℕ → ℕ) → Option ℕ → Option ℕ
map_some f none = none
map_some f (some x) = some (f x)

unfoldable pub get_integer_value : Atr → IntegerName → Option ℕ
get_integer_value atr IntegerName.fi = map_some (λ x. bit_and x 0xf0 / 16) (row atr 0).ta
get_integer_value atr IntegerName.di = map_some (λ x. bit_and x 0x0f) (row atr 0).ta
get_integer_value atr IntegerName.ii = map_some (λ x. bit_and x 0x60 / 32) (row atr 0).tb
get_integer_value atr IntegerName.pi1 = map_some (λ x. bit_and x 0x1f) (row atr 0).tb
get_integer_value atr IntegerName.pi2 = (row atr 1).tb
get_integer_value atr IntegerName.n = (row atr 0).tc
get_integer_value atr IntegerName.other = none

abbrev pub atr_f_table : List ℕ
atr_f_table =
    372 ∷ 372 ∷ 558 ∷ 744 ∷ 1116 ∷ 1488 ∷ 1860 ∷ 0 ∷ 0 ∷ 512 ∷ 768 ∷ 1024 ∷ 1536 ∷ 2048 ∷ 0 ∷ 0 ∷ []

-- In 64ths.
abbrev pub atr_d_table : List ℕ
atr_d_table =
    0 ∷ 64 ∷ 128 ∷ 256 ∷ 512 ∷ 1024 ∷ 2048 ∷ 4096 ∷ 768 ∷ 1280 ∷ 32 ∷ 16 ∷ 8 ∷ 4 ∷ 2 ∷ 1 ∷ []

abbrev pub atr_i_table : List ℕ
atr_i_table = 25 ∷ 50 ∷ 100 ∷ 0 ∷ []

pub data ParameterName : Type 0 where
  f d i p n other : ParameterName

abbrev pub or_default : Option ℕ → ℕ → ℕ
or_default none x = x
or_default (some y) x = y

abbrev pub or_else : Option ℕ → Option ℕ → Option ℕ
or_else none y = y
or_else (some x) y = some x

-- In 64ths.
unfoldable pub get_parameter : Atr → ParameterName → Option ℕ
unfolding get_integer_value
get_parameter atr ParameterName.f =
    some (at atr_f_table (or_default (get_integer_value atr IntegerName.fi) 1) * 64)
get_parameter atr ParameterName.d =
    some (or_default (map_some (at atr_d_table) (get_integer_value atr IntegerName.di)) 64)
get_parameter atr ParameterName.i =
    some (or_default (map_some (at atr_i_table) (get_integer_value atr IntegerName.ii)) 50 * 64)
get_parameter atr ParameterName.p = some (
    or_default
      (or_else (get_integer_value atr IntegerName.pi2) (get_integer_value atr IntegerName.pi1)) 5
    * 64)
get_parameter atr ParameterName.n = some (or_default (get_integer_value atr IntegerName.n) 0 * 64)
get_parameter atr ParameterName.other = none

unfoldable pub get_historical_bytes : Atr → Option (List ℕ)
get_historical_bytes atr = if length atr.hb == 0 then none else some atr.hb

abbrev pub byte_if : Option ℕ → List ℕ
byte_if none = []
byte_if (some b) = b ∷ []

abbrev pub row_bytes : IbRow → List ℕ
row_bytes r = byte_if r.ta ++ (byte_if r.tb ++ (byte_if r.tc ++ byte_if r.td))

-- The loop of `ATR_GetRaw`.
unfoldable pub rows_bytes : List IbRow → List ℕ
rows_bytes [] = []
rows_bytes (r ∷ rs) = row_bytes r ++ rows_bytes rs

-- The bytes written and their number. The rows of `ib` are the first `pn`.
unfoldable pub get_raw : Atr → List ℕ
unfolding rows_bytes
get_raw atr = atr.ts ∷ atr.t0 ∷ (rows_bytes atr.ib ++ (atr.hb ++ byte_if atr.tck))

unfoldable pub get_check_byte : Atr → Option ℕ
get_check_byte atr = atr.tck

unfoldable pub get_fs_max : Atr → ℕ
unfolding get_integer_value
get_fs_max atr =
    or_default (map_some (at atr_fs_table) (get_integer_value atr IntegerName.fi))
      (at atr_fs_table 1)
