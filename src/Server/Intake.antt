-- ===== src/Server/Intake.antt =====
-- oscam.c, the first half of `get_cw`: the corrections of a request (in Corrections) and the
-- checks that may refuse it, without its messages. Left out are `IRDETO_GUESSING` and the statistics
-- of services. The time of the last switch is the value after its update.
pub mod Corrections
pub mod Same
pub mod Accepted
mod Tests
use oscam_vdr.Base.{
  ℕ, zero, suc, ◌+◌, ◌-◌, ◌*◌, Bool, true, false, ◌&&◌, ◌||◌, not, Option, none, some, List, [],
  ◌∷◌, ◌==◌, ltb, leb, nonzero, if◌then◌else◌, bit_and, bit_or, get_elem?,
}
use oscam_vdr.Convert.Bytes.{at}
use oscam_vdr.Access.{SidTab, Ftab, Client, EcmRequest}
use oscam_vdr.Access.Services.{chk_srvid}
use oscam_vdr.Access.Filters.{chk_ufilters, chk_sfilter}
use oscam_vdr.Server.Intake.Corrections.{CaidRow, User, NcdPorts, find_caid, complete}
use oscam_vdr.Server.{e_fake, e_corrupt, e_unhandled}

abbrev pub e_sleeping : ℕ
e_sleeping = 6

abbrev pub e_invalid : ℕ
e_invalid = 8

abbrev pub e_expdate : ℕ
e_expdate = 11

abbrev pub e_disabled : ℕ
e_disabled = 12

abbrev pub e_stopped : ℕ
e_stopped = 13

abbrev pub ban_disabled : ℕ
ban_disabled = 2

abbrev pub ban_sleeping : ℕ
ban_sleeping = 4

abbrev pub e2_caid : ℕ
e2_caid = 2

-- What the checks come to: a read outside an array, the end of the client's thread, or the request
-- with its code.
pub data Checked : Type 0 where
  check_outside : Checked
  check_exit : Checked
  check_done : EcmRequest × ℕ → Checked

-- None is -1. The list has all places, those that are 0 included.
unfoldable pub chk_caid : ℕ → List CaidRow → Option ℕ
chk_caid caid [] = none
chk_caid caid (r ∷ rs) =
    let rest = chk_caid caid rs in
    if bit_and caid r.mask == r.caid then some (if nonzero r.cmap then r.cmap else caid) else rest

unfoldable pub chk_bcaid : EcmRequest → List CaidRow → Bool × EcmRequest
chk_bcaid er ctab = elim (chk_caid er.caid ctab) [
  | none ↦ (false, er)
  | some caid ↦ (true, record er { caid = caid })
]

-- `curtime` is within the frame, which may go over midnight.
unfoldable pub in_frame : ℕ → ℕ → ℕ → Bool
in_frame mintime maxtime curtime =
    (leb mintime maxtime && (ltb mintime curtime && ltb curtime maxtime))
    || (ltb maxtime mintime && (ltb mintime curtime || ltb curtime maxtime))

abbrev pub outside_frame : Option (ℕ × ℕ) → ℕ → Bool
outside_frame none curtime = false
outside_frame (some frame) curtime = not (in_frame frame.0 frame.1 curtime)

-- The code after the checks of the account: `now` in seconds, `curtime` in minutes of the day. What
-- ends the client's thread on the way is in `ends_client`.
unfoldable pub account_code : ℕ → ℕ → User → EcmRequest → ℕ → ℕ
account_code now curtime user er rc =
    let rc1 = if er.caid == 0 then e_invalid else rc in
    let rc2 =
      if nonzero user.expirationdate && ltb user.expirationdate now then e_expdate else rc1 in
    let rc3 = if outside_frame user.allowedtimeframe curtime then e_expdate else rc2 in
    if user.disabled then e_disabled else rc3

-- `client->failban & mask`
abbrev pub is_banned : User → ℕ → Bool
is_banned user mask = nonzero (bit_and user.failban mask)

-- The client has not switched its service for too long.
abbrev pub is_asleep : ℕ → ℕ → User → Bool
is_asleep now lastswitch user = nonzero user.tosleep && ltb user.tosleep (now - lastswitch)

-- Whether `cs_exit` ends the thread of the client: for a disabled client, and else for a sleeping
-- one that the checks of the account let pass.
unfoldable pub ends_client : ℕ → ℕ → ℕ → User → EcmRequest → Bool
ends_client now curtime lastswitch user er =
    (user.disabled && is_banned user ban_disabled)
    || (leb e_unhandled (account_code now curtime user er e_unhandled)
        && (is_asleep now lastswitch user && is_banned user ban_sleeping))

-- The code for a client that has not switched its service for too long, if its thread goes on.
unfoldable pub sleep_code : ℕ → ℕ → User → ℕ → ℕ
sleep_code now lastswitch user rc =
    if is_asleep now lastswitch user
    then (if user.c35_sleepsend then e_stopped else e_sleeping)
    else rc

-- `(((er->ecm[1] & 0x0F) << 8) | er->ecm[2]) + 3`
abbrev pub ecm_length : EcmRequest → ℕ
ecm_length er = bit_or (bit_and (at er.ecm 1) 0xf * 256) (at er.ecm 2) + 3

-- The code that a check gives.
abbrev pub verdict : Bool → ℕ → ℕ
verdict passed code = if passed then e_unhandled else code

-- The `switch` in the loop over the checks, for a request that is not refused yet.
unfoldable pub check_case :
    List SidTab → Option (List Ftab) → User → ℕ → EcmRequest → EcmRequest × ℕ
check_case sidtab ports user j er =
    if j == 0
    then (er, verdict (not user.dup) e_fake)
    else if j == 1
    then (let r = chk_bcaid er user.ctab in
        (if r.0 then r.1 else record er { rc_ex = e2_caid }, verdict r.0 e_invalid))
    else if j == 2
    then (er, verdict (chk_srvid sidtab user.client er) e_invalid)
    else if j == 3
    then (let r = chk_ufilters user.client er in (r.1, verdict r.0 e_invalid))
    else if j == 4
    then (let r = chk_sfilter user.client er ports in (r.1, verdict r.0 e_invalid))
    else if ltb (ecm_length er) er.l
    then (record er { l = ecm_length er }, e_unhandled)
    else (er, verdict (er.l == ecm_length er) e_corrupt)

-- `for (j = 0; (j < 6) && (er->rc >= E_UNHANDLED); j++)`, with the rounds that are left.
unfoldable pub check_loop :
    List SidTab → Option (List Ftab) → User → ℕ → ℕ → EcmRequest → ℕ → EcmRequest × ℕ
check_loop sidtab ports user zero j er rc = (er, rc)
check_loop sidtab ports user (suc left) j er rc =
    let r = check_case sidtab ports user j er in
    let rest = check_loop sidtab ports user left (suc j) r.0 r.1 in
    if leb e_unhandled rc then rest else (er, rc)

-- The checks, of a request with its corrections and the code `E_UNHANDLED`, whose client's thread
-- goes on.
unfoldable pub judge_request :
    List SidTab → Option (List Ftab) → User → ℕ → ℕ → ℕ → EcmRequest → EcmRequest × ℕ
judge_request sidtab ports user now curtime lastswitch er =
    let rc = account_code now curtime user er e_unhandled in
    if leb e_unhandled rc
    then check_loop sidtab ports user 6 0 (record er { ocaid = er.caid })
        (sleep_code now lastswitch user rc)
    else (record er { rc_ex = if er.caid == 0 then e2_caid else er.rc_ex }, rc)

-- The first half of `get_cw`, from a request with the code `E_UNHANDLED`.
unfoldable pub check_request :
    List ℕ → List SidTab → Option (List Ftab) → NcdPorts → User → ℕ → ℕ → ℕ → EcmRequest → Checked
check_request len4caid sidtab ports ncd user now curtime lastswitch er =
    elim (find_caid len4caid er) [
      | none ↦ check_outside
      | some er1 ↦ elim (complete ncd user er1) [
        | none ↦ check_outside
        | some er2 ↦
            if ends_client now curtime lastswitch user er2
            then check_exit
            else check_done (judge_request sidtab ports user now curtime lastswitch er2)
      ]
    ]
