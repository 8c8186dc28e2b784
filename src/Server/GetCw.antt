-- ===== src/Server/GetCw.antt =====
-- oscam.c, `get_cw` as a whole, with `lb_mode` 0 and no delay: the checks of Intake, the tunnel, the
-- MD5 sum and anti-cascading, and then Tasks.Submit. The thread of a banned client ends
-- by `cs_exit`: what that cleans up is left out. The fields that only the checks use, `srvid` and
-- `chid`, are those of an `EcmRequest`.
pub mod Charged
pub mod Refused
mod Tests
use oscam_vdr.Base.{
  ℕ, ◌-◌, ◌/◌, Bool, true, false, Option, none, some, List, [], ◌∷◌, ◌==◌, ltb, leb, if◌then◌else◌,
  take, drop,
}
use oscam_vdr.Access.{SidTab, Ftab, EcmRequest, MsgLog, Reader}
use oscam_vdr.Access.Readers.{matching_reader}
use oscam_vdr.AntiCascade.{Config, AcClient}
use oscam_vdr.AntiCascade.Requests.{AcRequest, ac_chk}
use oscam_vdr.Server.{Request, e_99, e_unhandled}
use oscam_vdr.Server.Intake.Corrections.{User, NcdPorts}
use oscam_vdr.Server.Intake.{check_outside, check_exit, check_done, check_request}
use oscam_vdr.Server.Failban.{VBan, cs_add_violation}
use oscam_vdr.Server.Packets.{TunnelRow, cs_betatunnel}
use oscam_vdr.Server.Tasks.{Hub}
use oscam_vdr.Server.Tasks.Pending.{Waits}
use oscam_vdr.Server.Tasks.Submit.{with_readers, submit}

-- What `get_cw` reads besides the request: of the configuration, of the client (from `user` on),
-- and the active readers.
pub record Setup : Type 0 where
  pub len4caid : List ℕ
  pub sidtab : List SidTab
  pub ports : Option (List Ftab)
  pub ncd : NcdPorts
  pub anticasc : Config
  pub waits : Waits
  pub user : User
  pub ac_client : AcClient
  pub ac_penalty : ℕ
  pub ttab : List TunnelRow
  pub readers : List ℕ
  pub reader_of : ℕ → Option Reader
  pub is_fallback : ℕ → Bool
  pub failbantime : ℕ
  pub failbancount : ℕ
  pub ip : ℕ
  pub port : ℕ

-- What `get_cw` comes to: a read outside an array, the end of the client's thread with the banned
-- addresses after it, or the state after it.
pub data GotCw : Type 0 where
  cw_outside : GotCw
  cw_exit : List VBan → GotCw
  cw_done : Hub → GotCw

-- The request with the fields that the checks have.
abbrev pub merged : Request → EcmRequest → ℕ → Request
merged er e rc = record er {
  ecm = e.ecm;
  l = e.l;
  caid = e.caid;
  ocaid = e.ocaid;
  prid = e.prid;
  rc_ex = e.rc_ex;
  rc = rc;
}

-- The request as the checks of the readers see it.
abbrev pub as_ecm : EcmRequest → Request → EcmRequest
as_ecm e er = record e { ecm = er.ecm; l = er.l; caid = er.caid; ocaid = er.ocaid; prid = er.prid }

abbrev pub md5_offset : Request → ℕ
md5_offset er = if er.caid / 256 == 0x17 then 13 else 3

-- None where the length of what is summed is negative.
unfoldable pub store_md5 : (List ℕ → List ℕ) → Request → Option Request
store_md5 md5 er =
    if ltb er.l (md5_offset er)
    then none
    else some (record er {
      ecmd5 = take 16 (md5 (take (er.l - md5_offset er) (drop (md5_offset er) er.ecm)));
    })

-- `ac_chk(client, er, 0)`
unfoldable pub deny : Setup → EcmRequest → Request → Request
deny st e er =
    let checked =
      ac_chk st.anticasc st.ac_client st.ac_penalty
        (record {
          caid = er.caid;
          prid = er.prid;
          srvid = e.srvid;
          chid = e.chid;
          ecmd5 = er.ecmd5;
          rc = er.rc;
          rc_ex = er.rc_ex;
        })
        0 [] in
    record er { rc = checked.request.rc; rc_ex = checked.request.rc_ex }

-- The part for a request that has passed the checks.
unfoldable pub prepare : (List ℕ → List ℕ) → Setup → EcmRequest → Request → Option Request
prepare md5 st e er =
    if leb e_unhandled er.rc
    then (elim (store_md5 md5 (cs_betatunnel e.srvid er st.ttab)) [
      | none ↦ none
      | some er1 ↦ some (deny st e er1)
    ])
    else some er

-- The readers for a request that is not refused.
unfoldable pub find_readers : Setup → EcmRequest → Request → Request
find_readers st e er =
    if leb e_99 er.rc
    then with_readers
        (λ r. matching_reader st.sidtab st.user.client (some (as_ecm e er)) (st.reader_of r))
        st.is_fallback st.readers er
    else er

-- The banned addresses with that of the client.
abbrev pub added : Setup → ℕ → List VBan → List VBan
added st now bans = cs_add_violation st.failbantime st.failbancount now st.ip st.port bans

-- `get_cw` for the request `er`, the task `i` of the client `k`, whose fields for the checks are
-- those of `e`. `curtime` is in minutes of the day, and `bans` are the banned addresses.
unfoldable pub get_cw :
    (List ℕ → List ℕ)
    → Setup
    → ℕ
    → ℕ
    → ℕ
    → ℕ
    → ℕ
    → ℕ
    → List VBan
    → EcmRequest
    → Request
    → Hub
    → GotCw
get_cw md5 st now curtime lastswitch grp k i bans e er s =
    elim (check_request st.len4caid st.sidtab st.ports st.ncd st.user now curtime lastswitch e) [
      | check_outside ↦ cw_outside
      | check_exit ↦ cw_exit (added st now bans)
      | check_done (e1, rc) ↦ elim (prepare md5 st e1 (merged er e1 rc)) [
        | none ↦ cw_outside
        | some er2 ↦ cw_done (submit st.waits now grp k i (find_readers st e1 er2) s)
      ]
    ]
