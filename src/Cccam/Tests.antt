-- ===== src/Cccam/Tests.antt =====
-- The ciphers on a short message, and the services of a card.
use oscam_vdr.Base.{ℕ, ◌≡◌, refl, false, List, [], ◌∷◌}
use oscam_vdr.Cccam.Crypt.{decrypt, encrypt, CryptBlock, cc_init_crypt, cc_crypt}
use oscam_vdr.Cccam.Crypt.RoundTrip.{cc_crypt-cc_crypt}
use oscam_vdr.Cccam.Sids.{SrvId, CardSids, sid_eq, has_sid, is_good_sid}
use oscam_vdr.Cccam.Sids.Lists.{IsApart}

abbrev start : CryptBlock
start = cc_init_crypt (0x11 ∷ 0x22 ∷ 0x33 ∷ [])

abbrev message : List ℕ
message = 1 ∷ 2 ∷ 3 ∷ []

cc_crypt-cc_crypt_example :
    let (sender, sent) = cc_crypt start message encrypt in
    cc_crypt start sent decrypt ≡ (sender, message)
cc_crypt-cc_crypt_example = cc_crypt-cc_crypt start message

abbrev any_length : SrvId
any_length = record { sid = 9; ecmlen = 0 }

abbrev known : SrvId
known = record { sid = 9; ecmlen = 0x80 }

abbrev other : SrvId
other = record { sid = 8; ecmlen = 0 }

abbrev card : CardSids
card = record { badsids = any_length ∷ other ∷ []; goodsids = other ∷ [] }

is_good_sid_unknown : is_good_sid card known ≡ false
unfolding is_good_sid has_sid sid_eq
is_good_sid_unknown = refl

bad-IsApart : IsApart card.badsids
unfolding has_sid sid_eq
bad-IsApart = (refl, (refl, tt))

good-IsApart : IsApart card.goodsids
unfolding has_sid
good-IsApart = (refl, tt)
