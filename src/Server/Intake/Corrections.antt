-- ===== src/Server/Intake/Corrections.antt =====
-- oscam.c, what `get_cw` corrects in a request before it checks it: the caid and the provider that
-- are missing, and the "Quickfix Area".
use oscam_vdr.Base.{
  ℕ, ◌+◌, ◌*◌, Bool, ◌&&◌, ◌||◌, Option, none, some, List, ◌==◌, ltb, leb, nonzero, if◌then◌else◌,
  bit_and, bit_or, get_elem?,
}
use oscam_vdr.Convert.Bytes.{at}
use oscam_vdr.Access.{Client, EcmRequest}
use oscam_vdr.Server.Packets.{chk_provid}

-- A place of the arrays of `CAIDTAB`.
pub record CaidRow : Type 0 where
  pub caid : ℕ
  pub mask : ℕ
  pub cmap : ℕ

-- The caid that is tried last.
abbrev pub last_hope : List ℕ → ℕ
last_hope ecm =
    if at ecm 3 == 0x81
      && (at ecm 4 == 0xff && (at ecm 5 == 0 && (at ecm 6 == 0 && at ecm 7 + 5 == at ecm 2)))
    then 0xd00
    else if at ecm 8 == 0x10 && bit_and (at ecm 9) 0xf1 == 1
    then 0x100
    else 0

-- The caid by the tests of Viaccess and Nagra, or 0.
abbrev pub by_form : List ℕ → ℕ → ℕ
by_form ecm prid =
    if at ecm 6 == 1 && at ecm 4 + 2 == at ecm 2 then 0x1801 else if nonzero prid then 0x500 else 0

-- The caid by the length of the ECM, or else `last_hope`; none for a read outside `len4caid`.
unfoldable pub by_length : List ℕ → List ℕ → Option ℕ
by_length len4caid ecm = elim (get_elem? len4caid (at ecm 2 + 3)) [
  | none ↦ none
  | some caid ↦ some (if nonzero caid then caid else last_hope ecm)
]

-- For a request without a caid.
unfoldable pub guess_cardsystem : List ℕ → EcmRequest → Option EcmRequest
guess_cardsystem len4caid er = elim (chk_provid er.ecm 0x500) [
  | none ↦ none
  | some prid ↦
      if nonzero (by_form er.ecm prid)
      then some (record er { prid = prid; caid = by_form er.ecm prid })
      else (elim (by_length len4caid er.ecm) [
        | none ↦ none
        | some caid ↦ some (record er { prid = prid; caid = caid })
      ])
]

-- `if (!er->caid) guess_cardsystem(er);`
unfoldable pub find_caid : List ℕ → EcmRequest → Option EcmRequest
find_caid len4caid er = if er.caid == 0 then guess_cardsystem len4caid er else some er

unfoldable pub fix_chid : EcmRequest → EcmRequest
fix_chid er =
    if (bit_and er.caid 0xff00 == 0x600) && er.chid == 0
    then record er { chid = bit_or (at er.ecm 6 * 256) (at er.ecm 7) }
    else er

unfoldable pub fix_srvid : EcmRequest → EcmRequest
fix_srvid er =
    if er.caid == 0x100 && (er.prid == 0x65 && er.srvid == 0)
    then record er { srvid = 0x642 }
    else er

-- The two quickfixes for a provider of Viaccess, one after the other.
unfoldable pub fix_prid : EcmRequest → EcmRequest
fix_prid er =
    if er.caid == 0x500 && (er.prid == 0x30300 || er.prid == 0xd20200)
    then record er { prid = 0x30600 }
    else er

unfoldable pub fix_caid : EcmRequest → EcmRequest
fix_caid er =
    if er.caid == 0x1702 && (er.l == 0x89 && (at er.ecm 3 == 7 && at er.ecm 4 == 0x84))
    then record er { caid = 0x1833 }
    else er

unfoldable pub fix_nagra : EcmRequest → EcmRequest
fix_nagra er =
    if (bit_and er.caid 0xff00 == 0x1800) && ltb 0xffff er.prid then record er { prid = 0 } else er

-- The "Quickfix Area".
abbrev pub quickfix : EcmRequest → EcmRequest
quickfix er = fix_nagra (fix_caid (fix_prid (fix_srvid (fix_chid er))))

-- What `get_cw` reads of the client and its account, and the client for the checks of Access.
-- `allowedtimeframe` is none where one of its two numbers is 0.
pub record User : Type 0 where
  pub client : Client
  pub ctab : List CaidRow
  pub dup : Bool
  pub disabled : Bool
  pub expirationdate : ℕ
  pub allowedtimeframe : Option (ℕ × ℕ)
  pub tosleep : ℕ
  pub c35_sleepsend : Bool
  pub failban : ℕ
  pub ncd_server : Bool

-- Of `cfg.ncd_ptab`: the number of ports in use, and of each place of the array the first provider
-- of the first filter.
pub record NcdPorts : Type 0 where
  pub nports : ℕ
  pub first_prids : List ℕ

-- `er->prid = chk_provid(er->ecm, er->caid)` where there is none; none as in `chk_provid`.
unfoldable pub find_provider : EcmRequest → Option EcmRequest
find_provider er =
    if er.prid == 0
    then (elim (chk_provid er.ecm er.caid) [
      | none ↦ none
      | some prid ↦ some (record er { prid = prid })
    ])
    else some er

-- The provider for newcamd clients if none is given.
unfoldable pub ncd_provider : NcdPorts → User → EcmRequest → EcmRequest
ncd_provider ncd user er =
    if er.prid == 0
      && (user.ncd_server && (nonzero ncd.nports && leb user.client.port_idx ncd.nports))
    then record er { prid = at ncd.first_prids user.client.port_idx }
    else er

-- The corrections and the provider.
unfoldable pub complete : NcdPorts → User → EcmRequest → Option EcmRequest
complete ncd user er = elim (find_provider (quickfix er)) [
  | none ↦ none
  | some er1 ↦ some (ncd_provider ncd user er1)
]
