-- ===== src/Access/Readers.antt =====
-- oscam-chk.c, which reader takes an ECM (`matching_reader`) or an EMM (`emm_reader_match`).
-- oscam-simples.c, `hexserialset`.
pub mod Matching
use oscam_vdr.Base.{
  ℕ, ◌+◌, ◌*◌, ◌/◌, ◌%◌, ◌^◌, Bool, true, false, ◌&&◌, ◌||◌, not, Option, none, some, List, [], ◌∷◌,
  bit_and, ◌==◌, nonzero, if◌then◌else◌, get_or, any, take,
}
use oscam_vdr.Access.{SidTab, Client, EcmRequest, Reader, WhiteIdent, WhiteCaid}
use oscam_vdr.Access.Services.{is_empty, chk_srvid}
use oscam_vdr.Access.Classes.{chk_class}
use oscam_vdr.Convert.Bytes.{b2i}
use oscam_vdr.Access.Filters.{chk_chid, chk_rfilter, chk_ctab}

abbrev pub r_is_network : ℕ
r_is_network = 0x60

abbrev pub r_camd35 : ℕ
r_camd35 = 0x20

abbrev pub r_cs378x : ℕ
r_cs378x = 0x24

-- The three nested loops over the whitelist: whether an ident was found, and whether the length was.
unfoldable pub white_idents : EcmRequest → List WhiteIdent → Bool × Bool → Bool × Bool
white_idents er [] found = found
white_idents er (i ∷ is) (foundident, ok) = white_idents er is (
    if i.ident == 0 || i.ident == er.prid
    then (true, ok || any (λ len. len == er.l) i.lengths)
    else (foundident, ok))

unfoldable pub white_caids : EcmRequest → List WhiteCaid → Bool × Bool → Bool × Bool
white_caids er [] found = found
white_caids er (c ∷ cs) found =
    white_caids er cs
      (if c.caid == 0 || c.caid == er.caid then white_idents er c.idents found else found)

-- `foundident == 1 && ok == 0` refuses.
abbrev pub white_verdict : Bool × Bool → Bool
white_verdict (foundident, ok) = not (foundident && not ok)

unfoldable pub chk_whitelist : EcmRequest → List WhiteCaid → Bool
chk_whitelist er cs = white_verdict (white_caids er cs (false, false))

-- A handler without `c_available` counts as available.
abbrev pub is_available : Option Bool → Bool
is_available none = true
is_available (some b) = b

-- The checks behind the NULL tests, `cur` the client and `own` the reader's own client.
unfoldable pub reader_checks : List SidTab → Client → EcmRequest → Reader → Client → Bool
reader_checks sidtab cur er rdr own =
    if not (rdr.connected && nonzero (bit_and rdr.grp cur.grp))
    then false
    else if not (is_available rdr.available)
    then false
    else if not (chk_ctab er.ocaid rdr.ctab) && not (chk_ctab er.caid rdr.ctab)
    then false
    else if not (nonzero (bit_and rdr.typ r_is_network))
        && (not (rdr.caid / 256 == er.caid / 256 % 256)
            && not (rdr.caid / 256 == er.ocaid / 256 % 256))
    then false
    else if not (chk_srvid sidtab own er)
    then false
    else if not (chk_rfilter er rdr)
    then false
    else if not (chk_class er rdr.cltab)
    then false
    else if not (chk_chid er rdr.fchid)
    then false
    else if not (chk_whitelist er rdr.ecm_whitelist)
    then false
    else true

-- A NULL request or reader is none.
unfoldable pub matching_reader : List SidTab → Client → Option EcmRequest → Option Reader → Bool
unfolding reader_checks
matching_reader sidtab cur none rdr = false
matching_reader sidtab cur (some er) none = false
matching_reader sidtab cur (some er) (some rdr) = elim rdr.client [
  | none ↦ false
  | some own ↦ reader_checks sidtab cur er rdr own
]

unfoldable pub hexserialset : Reader → Bool
hexserialset rdr = any nonzero (take 8 rdr.hexserial)

-- `b2i(4, prid)`
abbrev pub prid4 : List ℕ → ℕ
prid4 p = b2i 4 p

unfoldable pub emm_provider : Reader → ℕ → List (List ℕ) → Bool
emm_provider rdr provid [] = false
emm_provider rdr provid (p ∷ ps) =
    elim (prid4 p == provid
      || ((rdr.typ == r_camd35 || rdr.typ == r_cs378x)
          && (bit_and (prid4 p) 0xffff == bit_and provid 0xffff))) [
            | true ↦ true
            | false ↦ emm_provider rdr provid ps
          ]

unfoldable pub emm_reader_match : Reader → ℕ → ℕ → Bool
emm_reader_match rdr caid provid =
    if not (rdr.caid == caid) || rdr.audisabled
    then false
    else if not (hexserialset rdr)
    then false
    else if provid == 0
    then true
    else if nonzero rdr.auprovid && rdr.auprovid == provid
    then true
    else if is_empty rdr.prid
    then true
    else emm_provider rdr provid rdr.prid
