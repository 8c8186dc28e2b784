-- ===== src/Access/Filters/Causes.antt =====
-- About the filters: their verdicts, and the cause in the request.
use oscam_vdr.Base.{
  ℕ, zero, suc, ◌+◌, ◌≡◌, refl, Bool, true, ◌&&◌, ◌||◌, not, Option, none, some, List, [], ◌∷◌,
  bit_and, ◌==◌, nonzero, if◌then◌else◌, any, get_or, arith,
}
use oscam_vdr.Access.{Ftab, CaidTab, Client, EcmRequest, MsgLog}
use oscam_vdr.Access.Services.{is_empty}
use oscam_vdr.Access.Classes.{chk_class}
use oscam_vdr.Access.Filters.{
  ex_lserver_ident, ex_user_ident, ex_user_class, ex_user_chid, lists, chk_sfilter, chk_chid,
  chk_ufilters, ctab_loop, cs_maxcaidtab, chk_ctab,
}

-- Some filter is for the caid (0 stands for any on either side) and lists the provider.
abbrev pub user_admits : Ftab → ℕ → ℕ → Bool
user_admits ftab caid prid =
    is_empty ftab || any (λ f. (caid == 0 || (f.caid == 0 || caid == f.caid)) && lists f prid) ftab

-- The first of the three checks that fails, as the code it leaves; 0 where none fails.
abbrev pub user_cause : Client → EcmRequest → ℕ
user_cause cl er =
    if not (user_admits cl.ftab er.caid er.prid)
    then ex_user_ident
    else if not (chk_class er cl.cltab)
    then ex_user_class
    else if not (chk_chid er cl.fchid)
    then ex_user_chid
    else 0

caid_test :
    (caid prid : ℕ) (fs : Ftab)
    → any
        (λ f. (caid == 0 || (f.caid == 0 || (not (caid == 0) && caid == f.caid))) && lists f prid)
        fs
      ≡ any (λ f. (caid == 0 || (f.caid == 0 || caid == f.caid)) && lists f prid) fs
caid_test caid prid [] = refl
caid_test caid prid (f ∷ fs) = ground (arith, caid_test caid prid fs)

-- The user filters let a request pass exactly when no check fails, and clear the cause then. A
-- refusal keeps a cause that was there, and else records that of the first check that failed. The
-- rest of the request is unchanged, but for the log line of a refusal by provider.
pub chk_ufilters-user_cause :
    (cl : Client) (er : EcmRequest)
    → ((chk_ufilters cl er).0 ≡ (user_cause cl er == 0))
      × ((chk_ufilters cl er).1.rc_ex ≡ (
          if user_cause cl er == 0
          then 0
          else if nonzero er.rc_ex
          then er.rc_ex
          else user_cause cl er))
      × (record (chk_ufilters cl er).1 { rc_ex = er.rc_ex; msglog = er.msglog } ≡ er)
unfolding chk_ufilters
chk_ufilters-user_cause cl er = ground (arith, caid_test er.caid er.prid cl.ftab)

-- The filters of the port that the client came in by admit the caid and the provider.
abbrev pub port_admits : Client → Option (List Ftab) → ℕ → ℕ → Bool
port_admits cl none caid prid = true
port_admits cl (some ports) caid prid =
    is_empty (get_or ports cl.port_idx [])
    || any (λ f. (caid == 0 || caid == f.caid) && lists f prid) (get_or ports cl.port_idx [])

port_test :
    (caid prid : ℕ) (fs : Ftab)
    → any (λ f. (caid == 0 || (not (caid == 0) && caid == f.caid)) && lists f prid) fs
      ≡ any (λ f. (caid == 0 || caid == f.caid) && lists f prid) fs
port_test caid prid [] = refl
port_test caid prid (f ∷ fs) = ground (arith, port_test caid prid fs)

-- The filters of the client's port decide alone. A request that passes is unchanged, and a
-- refused one keeps the cause that it has or gets that of the local server filter, with a log line.
pub chk_sfilter-port_admits :
    (cl : Client) (er : EcmRequest) (ptab : Option (List Ftab))
    → ((chk_sfilter cl er ptab).0 ≡ port_admits cl ptab er.caid er.prid)
      × ((chk_sfilter cl er ptab).1 ≡ (
          if port_admits cl ptab er.caid er.prid then er else record er {
            rc_ex = if nonzero er.rc_ex then er.rc_ex else ex_lserver_ident;
            msglog = MsgLog.no_server_match er.caid er.prid;
          }))
unfolding chk_sfilter
chk_sfilter-port_admits cl er none = (refl, refl)
chk_sfilter-port_admits cl er (some []) = (refl, refl)
chk_sfilter-port_admits cl er (some (p ∷ ps)) = (
  ground (arith, port_test er.caid er.prid (get_or (p ∷ ps) cl.port_idx [])),
  ground (arith, port_test er.caid er.prid (get_or (p ∷ ps) cl.port_idx [])),
)

-- The caids and masks of the table up to the first caid 0, which ends it.
unfoldable pub entries : CaidTab → ℕ → ℕ → List (ℕ × ℕ)
entries ctab zero i = []
entries ctab (suc left) i =
    let rest = entries ctab left (i + 1) in
    if get_or ctab.caid i 0 == 0 then [] else (get_or ctab.caid i 0, get_or ctab.mask i 0) ∷ rest

ctab_loop-entries :
    (caid : ℕ) (ctab : CaidTab) (left i : ℕ)
    → ctab_loop caid ctab left i ≡ any (λ e. bit_and caid e.1 == e.0) (entries ctab left i)
unfolding ctab_loop entries
ctab_loop-entries caid ctab zero i = refl
ctab_loop-entries caid ctab (suc left) i = ground (arith, ctab_loop-entries caid ctab left (i + 1))

entries-empty :
    (ctab : CaidTab) (left : ℕ) → is_empty (entries ctab (suc left) 0) ≡ (get_or ctab.caid 0 0 == 0)
unfolding entries
entries-empty ctab left = ground arith

-- A caid passes the table exactly when it is 0, the table is empty, or it agrees with one of the
-- entries up to the first caid 0 in the bits of that entry's mask.
pub chk_ctab-entries :
    (caid : ℕ) (ctab : CaidTab)
    → let es = entries ctab cs_maxcaidtab 0 in
      chk_ctab caid ctab ≡ (caid == 0 || (is_empty es || any (λ e. bit_and caid e.1 == e.0) es))
unfolding chk_ctab
chk_ctab-entries caid ctab =
    rw (ctab_loop-entries caid ctab 32 0) (rw (entries-empty ctab 31) (ground arith))
