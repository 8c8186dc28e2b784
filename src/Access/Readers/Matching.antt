-- ===== src/Access/Readers/Matching.antt =====
-- About `matching_reader` and `emm_reader_match`, with the whitelist said without its loops.
use oscam_vdr.Base.{
  ℕ, ◌/◌, ◌%◌, ◌≡◌, refl, Bool, true, false, ◌&&◌, ◌||◌, not, some, List, [], ◌∷◌, bit_and, ◌==◌,
  nonzero, any, arith,
}
use oscam_vdr.Access.{SidTab, Client, EcmRequest, Reader, WhiteIdent, WhiteCaid}
use oscam_vdr.Access.Services.{is_empty}
use oscam_vdr.Access.Services.Verdict.{any_from, selects, chk_srvid-selects}
use oscam_vdr.Access.Classes.{chk_class}
use oscam_vdr.Access.Filters.{chk_chid, chk_rfilter, chk_ctab}
use oscam_vdr.Access.Readers.{
  r_is_network, white_idents, white_caids, chk_whitelist, is_available, matching_reader, prid4,
  r_camd35, r_cs378x, emm_provider, hexserialset, emm_reader_match,
}

abbrev pub ident_of : EcmRequest → WhiteIdent → Bool
ident_of er i = i.ident == 0 || i.ident == er.prid

abbrev pub caid_of : EcmRequest → WhiteCaid → Bool
caid_of er c = c.caid == 0 || c.caid == er.caid

abbrev pub length_of : EcmRequest → WhiteIdent → Bool
length_of er i = any (λ len. len == er.l) i.lengths

-- Some entry for the request's caid and provider.
abbrev pub is_listed : EcmRequest → List WhiteCaid → Bool
is_listed er cs = any (λ c. caid_of er c && any (ident_of er) c.idents) cs

-- Some such entry that has the request's length.
abbrev pub has_length : EcmRequest → List WhiteCaid → Bool
has_length er cs = any (λ c. caid_of er c && any (λ i. ident_of er i && length_of er i) c.idents) cs

white_idents-any :
    (er : EcmRequest) (is : List WhiteIdent) (f o : Bool)
    → white_idents er is (f, o)
      ≡ (f || any (ident_of er) is, o || any (λ i. ident_of er i && length_of er i) is)
unfolding white_idents
white_idents-any er [] f o = ground arith
white_idents-any er (i ∷ is) f o =
    ground (arith, white_idents-any er is f o, white_idents-any er is true (o || length_of er i))

white_caids-any :
    (er : EcmRequest) (cs : List WhiteCaid) (f o : Bool)
    → white_caids er cs (f, o) ≡ (f || is_listed er cs, o || has_length er cs)
unfolding white_caids
white_caids-any er [] f o = ground arith
white_caids-any er (c ∷ cs) f o = ground (
  arith,
  white_idents-any er c.idents f o,
  white_caids-any er cs f o,
  white_caids-any er cs (f || any (ident_of er) c.idents)
      (o || any (λ i. ident_of er i && length_of er i) c.idents),
)

-- The whitelist refuses exactly the requests whose caid and provider it lists, but not with their
-- length.
pub chk_whitelist-listed :
    (er : EcmRequest) (cs : List WhiteCaid)
    → chk_whitelist er cs ≡ (not (is_listed er cs) || has_length er cs)
unfolding chk_whitelist
chk_whitelist-listed er cs = rw (white_caids-any er cs false false) (ground arith)

-- The caid of a card reader has the system byte of the request's caid or of its original caid.
abbrev pub same_system : Reader → EcmRequest → Bool
same_system rdr er =
    nonzero (bit_and rdr.typ r_is_network)
    || (rdr.caid / 256 == er.caid / 256 % 256 || rdr.caid / 256 == er.ocaid / 256 % 256)

-- What a reader needs besides its services and the whitelist.
abbrev pub serves : Client → EcmRequest → Reader → Bool
serves cur er rdr =
    rdr.connected
    && (nonzero (bit_and rdr.grp cur.grp)
        && (is_available rdr.available
            && ((chk_ctab er.ocaid rdr.ctab || chk_ctab er.caid rdr.ctab)
                && (same_system rdr er
                    && (chk_rfilter er rdr && (chk_class er rdr.cltab && chk_chid er rdr.fchid))))))

-- A reader with a client takes an ECM exactly when it is connected, shares a group with the
-- client, is available, passes the caid, system, provider, class and chid tests, no negative
-- service table of its client matches and, if that has positive ones, one of them does, and the
-- whitelist does not list the request with other lengths only.
pub matching_reader-serves :
    (ts : List SidTab) (cur own : Client) (er : EcmRequest) (rdr : Reader)
    → rdr.client ≡ some own
    → matching_reader ts cur (some er) (some rdr) ≡ (
        serves cur er rdr
        && ((not (any_from (selects own.sidtabno er) 0 ts)
              && (not (nonzero own.sidtabok) || any_from (selects own.sidtabok er) 0 ts))
            && (not (is_listed er rdr.ecm_whitelist) || has_length er rdr.ecm_whitelist)))
unfolding matching_reader
matching_reader-serves ts cur own er rdr h =
    rw (h, matching_reader)
      (rw (chk_srvid-selects ts own er)
        (rw (chk_whitelist-listed er rdr.ecm_whitelist) (ground arith)))

-- Some provider of the reader is the one asked for, in its low 16 bits for a camd35 reader.
abbrev pub has_provider : Reader → ℕ → Bool
has_provider rdr provid =
    any
      (λ p.
        prid4 p == provid
        || ((rdr.typ == r_camd35 || rdr.typ == r_cs378x)
            && (bit_and (prid4 p) 0xffff == bit_and provid 0xffff)))
      rdr.prid

emm_provider-any :
    (rdr : Reader) (provid : ℕ) (ps : List (List ℕ))
    → emm_provider rdr provid ps
      ≡ any
          (λ p.
            prid4 p == provid
            || ((rdr.typ == r_camd35 || rdr.typ == r_cs378x)
                && (bit_and (prid4 p) 0xffff == bit_and provid 0xffff)))
          ps
unfolding emm_provider
emm_provider-any rdr provid [] = refl
emm_provider-any rdr provid (p ∷ ps) = ground (arith, emm_provider-any rdr provid ps)

-- A reader takes an EMM exactly when the caid is its own, EMMs are not switched off for it, its
-- serial number is set, and no provider is asked for, or it has none, or the one asked for is its
-- `auprovid` or among its providers.
pub emm_reader_match-provider :
    (rdr : Reader) (caid provid : ℕ)
    → emm_reader_match rdr caid provid ≡ (
        (rdr.caid == caid && not rdr.audisabled)
        && (hexserialset rdr
            && (provid == 0
                || (is_empty rdr.prid || (rdr.auprovid == provid || has_provider rdr provid)))))
unfolding emm_reader_match
emm_reader_match-provider rdr caid provid = rw (emm_provider-any rdr provid rdr.prid) (ground arith)
