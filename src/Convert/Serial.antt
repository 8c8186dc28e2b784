-- ===== src/Convert/Serial.antt =====
-- `hexserial_to_newcamd` and `newcamd_to_hexserial` of oscam-simples.c: the serial number of a card
-- in the reader's and in newcamd's order. The six bytes of the target are the result.
pub mod RoundTrip
use oscam_vdr.Base.{ℕ, ◌/◌, Bool, ◌||◌, List, [], ◌∷◌, ◌==◌, if◌then◌else◌}
use oscam_vdr.Convert.Bytes.{at}

abbrev pub is_betacrypt : ℕ → Bool
is_betacrypt caid = caid / 256 == 0x17 || caid / 256 == 0x06

abbrev pub is_viaccess : ℕ → Bool
is_viaccess caid = caid / 256 == 0x05 || caid / 256 == 0x0d

unfoldable pub hexserial_to_newcamd : List ℕ → ℕ → List ℕ
hexserial_to_newcamd source caid =
    if is_betacrypt caid
    then 0 ∷ 0 ∷ at source 3 ∷ at source 0 ∷ at source 1 ∷ at source 2 ∷ []
    else if is_viaccess caid
    then 0 ∷ at source 0 ∷ at source 1 ∷ at source 2 ∷ at source 3 ∷ at source 4 ∷ []
    else at source 0 ∷ at source 1 ∷ at source 2 ∷ at source 3 ∷ at source 4 ∷ at source 5 ∷ []

unfoldable pub newcamd_to_hexserial : List ℕ → ℕ → List ℕ
newcamd_to_hexserial source caid =
    if is_betacrypt caid
    then at source 3 ∷ at source 4 ∷ at source 5 ∷ at source 2 ∷ 0 ∷ 0 ∷ []
    else if is_viaccess caid
    then at source 1 ∷ at source 2 ∷ at source 3 ∷ at source 4 ∷ at source 5 ∷ 0 ∷ []
    else at source 0 ∷ at source 1 ∷ at source 2 ∷ at source 3 ∷ at source 4 ∷ at source 5 ∷ []
