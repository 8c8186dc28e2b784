-- ===== src/Server/Intake/Tests.antt =====
-- A request that passes all checks, and its ECM with bytes behind it.
use oscam_vdr.Base.{◌≡◌, ◌≤◌, refl, false, none, some, [], ◌∷◌, replicate, set}
use oscam_vdr.Access.{Client, EcmRequest, MsgLog}
use oscam_vdr.Access.Services.{chk_srvid}
use oscam_vdr.Access.Classes.{chk_class}
use oscam_vdr.Access.Filters.{chk_ufilters, chk_sfilter, chk_user_class, chk_chid}
use oscam_vdr.Server.{e_unhandled}
use oscam_vdr.Server.Packets.{chk_provid}
use oscam_vdr.Server.Intake.{
  check_outside, check_exit, check_done, ends_client, ecm_length, chk_caid, chk_bcaid, in_frame,
  account_code, sleep_code, check_case, check_loop, judge_request, check_request,
}
use oscam_vdr.Server.Intake.Corrections.{
  User, NcdPorts, fix_chid, fix_srvid, fix_prid, fix_caid, fix_nagra, find_provider, ncd_provider,
  find_caid, complete, by_length, guess_cardsystem,
}
use oscam_vdr.Server.Intake.Accepted.{check_request-Accepted}

abbrev account : Client
account = record {
  sidtabok = 0;
  sidtabno = 0;
  grp = 1;
  port_idx = 0;
  ftab = [];
  cltab = record { aclass = []; bclass = [] };
  fchid = [];
}

-- It takes caid 0x600 for 0x500, and is allowed from 22:00 to 6:00.
abbrev user : User
user = record {
  client = account;
  ctab =
      record { caid = 0x600; mask = 0xffff; cmap = 0x500 }
      ∷ record { caid = 0; mask = 0; cmap = 0 }
      ∷ [];
  dup = false;
  disabled = false;
  expirationdate = 5000;
  allowedtimeframe = some (1320, 360);
  tosleep = 600;
  c35_sleepsend = false;
  failban = 4;
  ncd_server = false;
}

abbrev no_ports : NcdPorts
no_ports = record { nports = 0; first_prids = [] }

-- The section says 12 bytes, 20 were received.
abbrev request : EcmRequest
request = record {
  caid = 0x600;
  ocaid = 0;
  prid = 0;
  srvid = 7;
  chid = 0;
  ecm = 0x80 ∷ 0x70 ∷ 9 ∷ replicate 17 5;
  l = 20;
  rc_ex = 0;
  msglog = MsgLog.empty;
}

abbrev passed : EcmRequest
passed = record request { caid = 0x500; ocaid = 0x600; chid = 0x505; l = 12 }

check_request-passed :
    check_request [] [] none no_ports user 4000 60 3900 request ≡ check_done (passed, e_unhandled)
unfolding check_request find_caid complete ends_client judge_request find_provider ncd_provider
    fix_chid fix_srvid fix_prid fix_caid fix_nagra chk_provid account_code in_frame sleep_code
    check_loop check_case chk_bcaid chk_caid chk_srvid chk_ufilters chk_user_class chk_class
    chk_chid chk_sfilter
check_request-passed = refl

check_request-Accepted_example :
    (passed.l ≡ ecm_length passed)
    × (passed.l ≤ request.l)
    × (passed.ecm ≡ request.ecm)
    × (user.disabled ≡ false)
    × (user.dup ≡ false)
check_request-Accepted_example =
    check_request-Accepted [] none user [] no_ports 4000 60 3900 request passed check_request-passed

-- In the middle of the day the account has expired.
check_request-day :
    check_request [] [] none no_ports user 4000 720 3900 request
    ≡ check_done (record request { chid = 0x505 }, 11)
unfolding check_request find_caid complete ends_client judge_request find_provider ncd_provider
    fix_chid fix_srvid fix_prid fix_caid fix_nagra chk_provid account_code in_frame
check_request-day = refl

-- One byte less than the section says.
check_request-corrupt :
    check_request [] [] none no_ports user 4000 60 3900 (record request { l = 11 })
    ≡ check_done (record passed { l = 11 }, 9)
unfolding check_request find_caid complete ends_client judge_request find_provider ncd_provider
    fix_chid fix_srvid fix_prid fix_caid fix_nagra chk_provid account_code in_frame sleep_code
    check_loop check_case chk_bcaid chk_caid chk_srvid chk_ufilters chk_user_class chk_class
    chk_chid chk_sfilter
check_request-corrupt = refl

-- A client that sleeps is banned.
check_request-exit : check_request [] [] none no_ports user 4600 60 3900 request ≡ check_exit
unfolding check_request find_caid complete ends_client find_provider ncd_provider fix_chid fix_srvid
    fix_prid fix_caid fix_nagra chk_provid account_code in_frame
check_request-exit = refl

-- Its length gives the caid of a request that has none.
check_request-guessed :
    (check_request
      (set (replicate 256 0) 12 0x600)
      []
      none
      no_ports
      user
      4000
      60
      3900
      (record request { caid = 0 }))
    ≡ check_done (passed, e_unhandled)
unfolding check_request find_caid guess_cardsystem by_length complete ends_client judge_request
    find_provider ncd_provider fix_chid fix_srvid fix_prid fix_caid fix_nagra chk_provid
    account_code in_frame sleep_code check_loop check_case chk_bcaid chk_caid chk_srvid chk_ufilters
    chk_user_class chk_class chk_chid chk_sfilter
check_request-guessed = refl

-- From a third byte of 253 on, the table is read behind its end.
check_request-outside :
    check_request
      (replicate 256 0x600)
      []
      none
      no_ports
      user
      4000
      60
      3900
      (record request { caid = 0; ecm = 0x80 ∷ 0x70 ∷ 253 ∷ replicate 17 5 })
    ≡ check_outside
unfolding check_request find_caid guess_cardsystem by_length chk_provid
check_request-outside = refl
