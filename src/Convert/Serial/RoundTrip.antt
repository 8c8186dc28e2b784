-- ===== src/Convert/Serial/RoundTrip.antt =====
-- About a serial number on its way to newcamd's order and back.
use oscam_vdr.Base.{ℕ, ◌≡◌, [], ◌∷◌, if◌then◌else◌, arith}
use oscam_vdr.Convert.Serial.{is_betacrypt, is_viaccess, hexserial_to_newcamd, newcamd_to_hexserial}

-- The number of bytes that the system's serial number has.
abbrev pub serial_length : ℕ → ℕ
serial_length caid = if is_betacrypt caid then 4 else if is_viaccess caid then 5 else 6

-- The way to newcamd and back keeps the bytes of the system's serial number, and clears those of
-- the six behind them.
pub newcamd_to_hexserial-hexserial_to_newcamd :
    (b0 b1 b2 b3 b4 b5 caid : ℕ)
    → let source = b0 ∷ b1 ∷ b2 ∷ b3 ∷ b4 ∷ b5 ∷ [] in
      newcamd_to_hexserial (hexserial_to_newcamd source caid) caid ≡ (
        if is_betacrypt caid
        then b0 ∷ b1 ∷ b2 ∷ b3 ∷ 0 ∷ 0 ∷ []
        else if is_viaccess caid
        then b0 ∷ b1 ∷ b2 ∷ b3 ∷ b4 ∷ 0 ∷ []
        else source)
unfolding newcamd_to_hexserial hexserial_to_newcamd
newcamd_to_hexserial-hexserial_to_newcamd b0 b1 b2 b3 b4 b5 caid = ground arith
