-- ===== src/Server/GetCw/Tests.antt =====
-- A client with one task, and a reader that takes its request.
use oscam_vdr.Base.{
  ℕ, ◌+◌, ◌≡◌, refl, true, false, none, some, List, [], ◌∷◌, replicate, take, length,
}
use oscam_vdr.Access.{Client, EcmRequest, MsgLog, Reader}
use oscam_vdr.Access.Services.{chk_srvid}
use oscam_vdr.Access.Classes.{chk_class}
use oscam_vdr.Access.Filters.{
  chk_ufilters, chk_sfilter, chk_user_class, chk_chid, chk_rfilter, chk_ctab, ctab_loop,
}
use oscam_vdr.Access.Readers.{matching_reader, chk_whitelist, white_caids}
use oscam_vdr.AntiCascade.{cleared}
use oscam_vdr.AntiCascade.Requests.{ac_chk}
use oscam_vdr.Server.{Request, e_unhandled}
use oscam_vdr.Server.Cache.{scan, check_and_store_ecmcache}
use oscam_vdr.Server.Packets.{chk_provid, cs_betatunnel, convert_to_beta, beta_bytes}
use oscam_vdr.Server.Tasks.{Counters, Hub, blank}
use oscam_vdr.Server.Tasks.Answers.{task_at, put_task}
use oscam_vdr.Server.Tasks.Charge.{owed, answers}
use oscam_vdr.Server.Tasks.Pending.{primaries, request_readers}
use oscam_vdr.Server.Tasks.Submit.{match_readers, with_readers, submit}
use oscam_vdr.Server.Intake.{
  chk_caid, chk_bcaid, account_code, sleep_code, check_case, check_loop, judge_request,
  check_request, ends_client,
}
use oscam_vdr.Server.Failban.{cs_check_v, ban_loop}
use oscam_vdr.Server.Intake.Corrections.{
  User, fix_chid, fix_srvid, fix_prid, fix_caid, fix_nagra, find_provider, ncd_provider, find_caid,
  complete,
}
use oscam_vdr.Server.GetCw.{
  Setup, store_md5, deny, prepare, find_readers, get_cw, GotCw, cw_exit, cw_done,
}
use oscam_vdr.Server.GetCw.Charged.{charge-get_cw}

abbrev account : Client
account = record {
  sidtabok = 0;
  sidtabno = 0;
  grp = 1;
  port_idx = 0;
  ftab = [];
  cltab = record { aclass = []; bclass = [] };
  fchid = [];
}

abbrev user : User
user = record {
  client = account;
  ctab = record { caid = 0x1800; mask = 0xffff; cmap = 0 } ∷ [];
  dup = false;
  disabled = false;
  expirationdate = 0;
  allowedtimeframe = none;
  tosleep = 0;
  c35_sleepsend = false;
  failban = 0;
  ncd_server = false;
}

abbrev card_reader : Reader
card_reader = record {
  client = some account;
  connected = true;
  grp = 3;
  available = none;
  ctab = record { caid = 0x1700 ∷ []; mask = 0xff00 ∷ [] };
  typ = 1;
  caid = 0x1702;
  prid = [];
  ftab = [];
  cltab = record { aclass = []; bclass = [] };
  fchid = [];
  ecm_whitelist = [];
  ncd_disable_server_filt = false;
  audisabled = false;
  hexserial = replicate 8 0;
  auprovid = 0;
}

-- The reader takes caid 0x17xx only: requests for 0x1800 reach it through the tunnel.
abbrev setup : Setup
setup = record {
  len4caid = replicate 256 0;
  sidtab = [];
  ports = none;
  ncd = record { nports = 0; first_prids = [] };
  anticasc = record {
    ac_enabled = true;
    ac_stime = 2;
    ac_samples = 10;
    ac_denysamples = 9;
    cpmap = [];
  };
  waits = record {
    ctimeout = 5000;
    ftimeout = 2500;
    preferlocalcards = false;
    lb_mode = false;
    network = λ r. false;
    any_network = false;
  };
  user = user;
  ac_client = record { is_client = true; ac_limit = 10; acasc = cleared; account = 0 };
  ac_penalty = 0;
  ttab = record { bt_caidfrom = 0x1800; bt_srvid = 0xffff; bt_caidto = 0x1702 } ∷ [];
  readers = 4 ∷ [];
  reader_of = λ r. some card_reader;
  is_fallback = λ r. false;
  failbantime = 60;
  failbancount = 0;
  ip = 9;
  port = 12000;
}

-- The bytes themselves in place of their sum.
abbrev plain : List ℕ → List ℕ
plain bytes = take 16 bytes

abbrev incoming : EcmRequest
incoming = record {
  caid = 0x1800;
  ocaid = 0;
  prid = 0;
  srvid = 7;
  chid = 0;
  ecm = 0x80 ∷ 0x70 ∷ 9 ∷ replicate 509 5;
  l = 12;
  rc_ex = 0;
  msglog = MsgLog.empty;
}

abbrev task : Request
task = record blank { rc = e_unhandled; tps = 1000 }

abbrev no_counters : Counters
no_counters = record { cwfound = 0; cwcache = 0; cwnot = 0; cwtout = 0; cwignored = 0 }

abbrev hub : Hub
hub = record {
  clients =
      record {
        ecmtask = some (task ∷ []);
        multi = true;
        pipe = true;
        typ_c = true;
        grp = 1;
        account = 0;
        pending = 0;
        counters = no_counters;
      }
      ∷ [];
  accounts = no_counters ∷ [];
  total = no_counters;
  cache = record { entries = []; next_address = 7 };
  output = [];
}

abbrev hub_or : GotCw → Hub
hub_or (cw_done s) = s
hub_or r = hub

abbrev run : Setup → Hub
run st = hub_or (get_cw plain st 1000 60 900 1 0 0 [] incoming task hub)

task_there : task_at 0 0 hub ≡ some task
unfolding task_at
task_there = refl

run-sent : get_cw plain setup 1000 60 900 1 0 0 [] incoming task hub ≡ cw_done (run setup)
unfolding get_cw check_request find_caid complete find_provider ncd_provider ends_client
    judge_request fix_chid fix_srvid fix_prid fix_caid fix_nagra chk_provid account_code sleep_code
    check_loop check_case chk_bcaid chk_caid chk_srvid chk_ufilters chk_user_class chk_class
    chk_chid chk_sfilter prepare store_md5 cs_betatunnel convert_to_beta beta_bytes deny ac_chk
run-sent = refl

charge-get_cw_example :
    owed 0 (run setup) + answers 0 (run setup).output ≡ owed 0 hub + answers 0 hub.output
charge-get_cw_example =
    charge-get_cw plain setup 1000 60 900 1 0 0 0 [] incoming task task hub (run setup) task_there
      refl run-sent

-- The tunnelled request is sent to the reader.
run-output : length (run setup).output ≡ 1
unfolding get_cw check_request find_caid complete find_provider ncd_provider ends_client
    judge_request fix_chid fix_srvid fix_prid fix_caid fix_nagra chk_provid account_code sleep_code
    check_loop check_case chk_bcaid chk_caid chk_srvid chk_ufilters chk_user_class chk_class
    chk_chid chk_sfilter prepare store_md5 cs_betatunnel convert_to_beta beta_bytes deny ac_chk
    find_readers with_readers match_readers matching_reader chk_ctab ctab_loop chk_rfilter
    chk_whitelist white_caids submit check_and_store_ecmcache scan put_task request_readers
    primaries
run-output = refl

abbrev disabled : Setup
disabled = record setup { user = record user { disabled = true } }

-- The client is to be banned if it is disabled.
abbrev banned : Setup
banned = record setup { user = record user { disabled = true; failban = 2 } }

run-exit :
    get_cw plain banned 1000 60 900 1 0 0 [] incoming task hub
    ≡ cw_exit (record { v_count = 1; v_ip = 9; v_port = 12000; v_time = 1000 } ∷ [])
unfolding get_cw check_request find_caid complete find_provider ncd_provider ends_client fix_chid
    fix_srvid fix_prid fix_caid fix_nagra chk_provid cs_check_v ban_loop
run-exit = refl
