-- ===== src/Convert/Tests.antt =====
-- The conversions at work on short texts and buffers.
use oscam_vdr.Base.{ℕ, List, [], ◌∷◌}
use oscam_vdr.Convert.Clock.{Timeb}
use oscam_vdr.Convert.Address.{IpRange}

abbrev zeros : List ℕ
zeros = 0 ∷ 0 ∷ 0 ∷ 0 ∷ []

abbrev filled_two : List ℕ
filled_two = 5 ∷ 7 ∷ 0 ∷ []

abbrev two_bytes : List ℕ
two_bytes = 0xa7 ∷ 0x01 ∷ []

abbrev blanks : List ℕ
blanks = 32 ∷ 65 ∷ 32 ∷ 66 ∷ 10 ∷ []

abbrev early : Timeb
early = record { time = 5; millitm = 999 }

abbrev late : Timeb
late = record { time = 6; millitm = 0 }

abbrev ranges : List IpRange
ranges =
    record { first = 0x0100007f; last = 0x0100007f }
    ∷ record { first = 0x0000a8c0; last = 0xff00a8c0 }
    ∷ []

abbrev serial : List ℕ
serial = 1 ∷ 2 ∷ 3 ∷ 4 ∷ 5 ∷ 6 ∷ []
