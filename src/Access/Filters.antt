-- ===== src/Access/Filters.antt =====
-- oscam-chk.c, the filters by caid and provider or chid. A check that writes to the request
-- returns its verdict with the new request. The nested loops that stop at the first hit are `any`.
pub mod Causes
use oscam_vdr.Base.{
  ℕ, zero, suc, ◌+◌, ◌*◌, ◌^◌, Bool, true, false, ◌&&◌, ◌||◌, not, Option, none, some, List, [],
  ◌∷◌, bit_and, bit_or, ◌==◌, nonzero, if◌then◌else◌, get_or, any, length,
}
use oscam_vdr.Access.{Filter, Ftab, CaidTab, Client, EcmRequest, Reader, MsgLog}
use oscam_vdr.Access.Services.{is_empty}
use oscam_vdr.Access.Classes.{byte_at, chk_class}

-- `(E1_LSERVER<<4)|E2_IDENT` and its kin.
abbrev pub ex_lserver_ident : ℕ
ex_lserver_ident = 0x43

abbrev pub ex_server_ident : ℕ
ex_server_ident = 0x33

abbrev pub ex_user_ident : ℕ
ex_user_ident = 0x13

abbrev pub ex_user_class : ℕ
ex_user_class = 0x14

abbrev pub ex_user_chid : ℕ
ex_user_chid = 0x15

-- `if (!er->rcEx) er->rcEx = code;`
abbrev pub set_cause : ℕ → EcmRequest → EcmRequest
set_cause code er = record er { rc_ex = if nonzero er.rc_ex then er.rc_ex else code }

abbrev pub lists : Filter → ℕ → Bool
lists f v = any (λ p. v == p) f.prids

-- The server filter of newcamd, over the filters of each port. None is a NULL table.
unfoldable pub chk_sfilter : Client → EcmRequest → Option (List Ftab) → Bool × EcmRequest
chk_sfilter cl er none = (true, er)
chk_sfilter cl er (some ports) =
    let filts = get_or ports cl.port_idx [] in
    if not (is_empty ports) && not (is_empty filts)
    then (if any
          (λ f. (er.caid == 0 || (not (er.caid == 0) && er.caid == f.caid)) && lists f er.prid)
          filts
        then (true, er)
        else (
          false,
          set_cause ex_lserver_ident
              (record er { msglog = MsgLog.no_server_match er.caid er.prid }),
        ))
    else (true, er)

unfoldable pub chk_chid : EcmRequest → Ftab → Bool
chk_chid er fchid =
    if not (bit_and er.caid 0xff00 == 0x600)
    then true
    else if er.chid == 0
    then true
    else if is_empty fchid
    then true
    else any (λ f. er.caid == f.caid && lists f er.chid) fchid

-- `chk_ufilters` behind its first part: the class and the chid filter.
unfoldable pub chk_user_class : Client → EcmRequest → Bool × EcmRequest
chk_user_class cl er =
    if not (chk_class er cl.cltab)
    then (false, set_cause ex_user_class er)
    else if not (chk_chid er cl.fchid)
    then (false, set_cause ex_user_chid er)
    else (true, record er { rc_ex = 0 })

unfoldable pub chk_ufilters : Client → EcmRequest → Bool × EcmRequest
unfolding chk_user_class
chk_ufilters cl er =
    if is_empty cl.ftab
    then chk_user_class cl er
    else if any
        (λ f.
          (er.caid == 0 || (f.caid == 0 || (not (er.caid == 0) && er.caid == f.caid)))
          && lists f er.prid)
        cl.ftab
    then chk_user_class cl er
    else (
      false,
      set_cause ex_user_ident (record er { msglog = MsgLog.no_card_support er.caid er.prid }),
    )

-- `(uint32_t)((prid[1]<<16) | (prid[2]<<8) | prid[3])`
abbrev pub prid_of : List ℕ → ℕ
prid_of p = bit_or (bit_or (byte_at p 1 * 2 ^ 16) (byte_at p 2 * 2 ^ 8)) (byte_at p 3)

unfoldable pub chk_rsfilter : Reader → EcmRequest → Bool × EcmRequest
chk_rsfilter rdr er =
    if rdr.ncd_disable_server_filt
    then (true, er)
    else if rdr.caid == er.caid && any (λ p. prid_of p == er.prid) rdr.prid
    then (true, er)
    else (false, set_cause ex_server_ident er)

unfoldable pub chk_rfilter : EcmRequest → Reader → Bool
chk_rfilter er rdr =
    if is_empty rdr.ftab
    then true
    else any
        (λ f.
          ((not (f.caid == 0) && f.caid == er.caid) || f.caid == 0)
          && any (λ p. p == er.prid) f.prids)
        rdr.ftab

-- The loop of `chk_ctab` from entry `i` on, with `left` entries to go.
unfoldable pub ctab_loop : ℕ → CaidTab → ℕ → ℕ → Bool
ctab_loop caid ctab zero i = false
ctab_loop caid ctab (suc left) i = elim (get_or ctab.caid i 0 == 0) [
  | true ↦ false
  | false ↦ elim (bit_and caid (get_or ctab.mask i 0) == get_or ctab.caid i 0) [
    | true ↦ true
    | false ↦ ctab_loop caid ctab left (i + 1)
  ]
]

abbrev pub cs_maxcaidtab : ℕ
cs_maxcaidtab = 32

unfoldable pub chk_ctab : ℕ → CaidTab → Bool
chk_ctab caid ctab =
    if caid == 0 || get_or ctab.caid 0 0 == 0 then true else ctab_loop caid ctab cs_maxcaidtab 0
