-- ===== src/Server/Tests.antt =====
-- One client, two readers and one ECM, and small inputs of the other operations.
use oscam_vdr.Base.{
  ℕ, ◌+◌, ◌*◌, ◌%◌, ◌++◌, Bool, ◌≡◌, ◌≢◌, ◌↔◌, refl, true, false, Option, none, some, List, [], ◌∷◌,
  ◌==◌, replicate, set, length, Exists, ◌⊎◌, inl, inr, arith,
}
use oscam_vdr.Convert.Clock.{Timeb, comp_timeb}
use oscam_vdr.Convert.Bytes.{at}
use oscam_vdr.Server.{Request, e_found, e_unhandled, e_99, e_rdr_notfound, e2_wrong_chksum}
use oscam_vdr.Server.Cache.{
  Ecm, Cache, oldest, scan, check_and_store_ecmcache, check_cwcache1, entry_at, put_at,
  store_cw_in_cache,
}
use oscam_vdr.Server.Cache.Life.{none_yet, then_step, looked, Steps, Steps-answered}
use oscam_vdr.Server.Cache.Pointers.{store_cw_in_cache-asked}
use oscam_vdr.Server.Cache.Answers.{
  Answers, code_of, check_and_store_ecmcache-Answers, check_cwcache1-store_cw_in_cache,
}
use oscam_vdr.Server.Tasks.{Counters, Hub, blank, checked, send_dcw}
use oscam_vdr.Server.Tasks.Answers.{task_at, answer_task, finish, chk_task, chk_dcw, mend_request}
use oscam_vdr.Server.Tasks.Charge.{owed, answers}
use oscam_vdr.Server.Tasks.Once.{charge-chk_dcw}
use oscam_vdr.Server.Tasks.Misses.{Misses}
use oscam_vdr.Server.Tasks.Sums.{HasSums, with_sums, mend_request-HasSums}
use oscam_vdr.Server.Tasks.Pending.{
  Waits, primaries, advance, wait_on, pending_task, pending_loop, chk_pending,
}
use oscam_vdr.Server.Tasks.Pending.Once.{charge-chk_pending}
use oscam_vdr.Server.Tasks.Pending.Late.{GoesOn}
use oscam_vdr.Server.Tasks.Pending.Progress.{pending_task-GoesOn}
use oscam_vdr.Server.Tasks.Submit.{match_readers, with_readers}
use oscam_vdr.Server.Tasks.Submit.Readers.{normal, fallbacks, or_others, with_readers-primaries}
use oscam_vdr.Server.RateLimit.{Slot, use_service, use_space, limit_ecm, limit_all}
use oscam_vdr.Server.RateLimit.Granted.{limit_ecm-limit_ecm}
use oscam_vdr.Server.Packets.{outside, provider_loop, convert_to_beta}
use oscam_vdr.Server.Packets.Bounds.{provider_loop-In}
use oscam_vdr.Server.Packets.Tunnel.{convert_to_beta-payload}
use oscam_vdr.Server.Failban.{VBan, Bans, cs_check_v, cs_check_v-Bans}

abbrev word : List ℕ
word = 1 ∷ 2 ∷ 3 ∷ 6 ∷ 4 ∷ 5 ∷ 6 ∷ 15 ∷ 7 ∷ 8 ∷ 9 ∷ 24 ∷ 10 ∷ 11 ∷ 12 ∷ 33 ∷ []

abbrev request : Request
request = record blank {
  ecmd5 = 0xaa ∷ 0xbb ∷ [];
  caid = 0x500;
  ocaid = 0x500;
  rc = e_unhandled;
  tps = 1000;
  matching_rdr = 1 ∷ 2 ∷ [];
}

abbrev empty_cache : Cache
empty_cache = record { entries = []; next_address = 7 }

abbrev asked_once : Cache × Request × ℕ
asked_once = check_and_store_ecmcache 5000 1000 request 1 empty_cache

asked_once_code : asked_once.2 ≡ e_unhandled
unfolding check_and_store_ecmcache scan
asked_once_code = refl

asked_once_tps : asked_once.1.tps ≡ request.tps
unfolding check_and_store_ecmcache scan
asked_once_tps = refl

abbrev looked_later : Cache
looked_later = (check_cwcache1 5000 1010 request 1 asked_once.0).0

two-Steps : Steps 1000 1010 asked_once.0 looked_later
two-Steps =
    then_step 1000 1000 1010 asked_once.0 asked_once.0 looked_later (none_yet 1000 asked_once.0)
      (omega arith) (looked 5000 1010 request 1 asked_once.0)

store_cw_in_cache-asked_example :
    (d : Cache) × (store_cw_in_cache 1010 asked_once.1 2 e_found looked_later ≡ some d)
store_cw_in_cache-asked_example =
    store_cw_in_cache-asked 5000 1000 request 1 empty_cache tt (omega arith) asked_once_code 1010
      looked_later two-Steps asked_once.1 refl asked_once_tps 2 e_found

abbrev no_counters : Counters
no_counters = record { cwfound = 0; cwcache = 0; cwnot = 0; cwtout = 0; cwignored = 0 }

abbrev hub_of : List Request → Hub
hub_of tasks = record {
  clients =
      record {
        ecmtask = some tasks;
        multi = true;
        pipe = true;
        typ_c = true;
        grp = 1;
        account = 0;
        pending = 0;
        counters = no_counters;
      }
      ∷ [];
  accounts = no_counters ∷ [];
  total = no_counters;
  cache = empty_cache;
  output = [];
}

abbrev group_one : ℕ → ℕ
group_one r = 1

abbrev hub_or : Hub → Option Hub → Hub
hub_or d none = d
hub_or d (some s) = s

abbrev waits_one : Hub
waits_one = hub_of (request ∷ [])

abbrev found : Request
found = record request { rc = 1; cw = word; selected_reader = some 1 }

abbrev answered : Hub
answered = hub_or waits_one (chk_dcw group_one 1001 0 found waits_one)

chk_dcw-found : chk_dcw group_one 1001 0 found waits_one ≡ some answered
unfolding chk_dcw chk_task finish answer_task send_dcw checked
chk_dcw-found = refl

charge-chk_dcw_example :
    owed 0 answered + answers 0 answered.output ≡ owed 0 waits_one + answers 0 waits_one.output
charge-chk_dcw_example = charge-chk_dcw group_one 1001 0 0 found waits_one answered chk_dcw-found

abbrev nothing_of : ℕ → Request
nothing_of r = record request { rc = e_rdr_notfound; selected_reader = some r }

task_at_waits : task_at 0 0 waits_one ≡ some request
unfolding task_at
task_at_waits = refl

abbrev waits : Waits
waits = record {
  ctimeout = 5000;
  ftimeout = 2500;
  preferlocalcards = false;
  lb_mode = true;
  network = λ r. r == 2;
  any_network = true;
}

abbrev late : Timeb
late = record { time = 1010; millitm = 0 }

abbrev looked_at : Hub
looked_at = hub_or waits_one (chk_pending waits late 0 waits_one)

chk_pending-late : chk_pending waits late 0 waits_one ≡ some looked_at
unfolding chk_pending pending_loop task_at pending_task wait_on check_cwcache1 scan comp_timeb
    advance primaries
chk_pending-late = refl

charge-chk_pending_example :
    owed 0 looked_at + answers 0 looked_at.output ≡ owed 0 waits_one + answers 0 waits_one.output
charge-chk_pending_example = charge-chk_pending waits late 0 0 waits_one looked_at chk_pending-late

pending_task-GoesOn_example :
    (d : Hub) × (pending_task waits 1 late 0 0 request waits_one ≡ some d) × GoesOn 0 0 request d
pending_task-GoesOn_example =
    pending_task-GoesOn waits 1 late 0 0 request waits_one task_at_waits refl (inl refl)
      (omega arith) (omega arith)

abbrev entry : Ecm
entry = record {
  address = 3;
  ecmd5 = 0xaa ∷ 0xbb ∷ [];
  cw = word;
  caid = 0x500;
  grp = 1;
  reader = some 1;
  rc = 0;
  time = 990;
}

abbrev open_entry : Ecm
open_entry = record entry { rc = e_99 }

abbrev cache_of : Ecm → Cache
cache_of e = record { entries = e ∷ []; next_address = 7 }

hit_code : (check_and_store_ecmcache 5000 1000 request 1 (cache_of entry)).2 ≢ e_unhandled
unfolding check_and_store_ecmcache scan
hit_code = λ e. omega arith

check_and_store_ecmcache-Answers_example :
    Exists
      (λ e.
        Answers (oldest 5000 1000) request 1 e
        × ((check_and_store_ecmcache 5000 1000 request 1 (cache_of entry)).2 ≡ code_of e.rc)
        × ((check_and_store_ecmcache 5000 1000 request 1 (cache_of entry)).1.cw ≡ e.cw))
      (entry ∷ [])
check_and_store_ecmcache-Answers_example =
    check_and_store_ecmcache-Answers 5000 1000 request 1 (cache_of entry) hit_code

abbrev sender : Request
sender = record found { ecmcacheptr = some 3 }

abbrev filled : Cache
filled = cache_of (record entry { time = 1001; grp = 2 })

stored_now : store_cw_in_cache 1001 sender 2 e_found (cache_of open_entry) ≡ some filled
unfolding store_cw_in_cache entry_at put_at
stored_now = refl

entry_there : entry_at 3 (open_entry ∷ []) ≡ some open_entry
unfolding entry_at
entry_there = refl

check_cwcache1-store_cw_in_cache_example : (check_cwcache1 5000 1050 request 3 filled).2 ≡ true
check_cwcache1-store_cw_in_cache_example =
    check_cwcache1-store_cw_in_cache 1001 sender 2 3 open_entry (cache_of open_entry) filled refl
      entry_there (λ e. omega arith) (omega arith) stored_now 5000 1050 request 3 (omega arith) refl
      refl (inr (λ e. omega arith))

abbrev looked_entry : Cache
looked_entry = (check_cwcache1 5000 1010 request 4 (cache_of entry)).0

Steps-answered_example : Exists (λ e. e ≡ entry) looked_entry.entries
Steps-answered_example =
    Steps-answered entry 1000 1010 (cache_of entry) looked_entry
      (then_step 1000 1000 1010 (cache_of entry) (cache_of entry) looked_entry
        (none_yet 1000 (cache_of entry)) (omega arith)
        (looked 5000 1010 request 4 (cache_of entry)))
      refl (omega arith) (inl refl)

abbrev even_fallback : ℕ → Bool
even_fallback r = r % 2 == 0

abbrev all_match : ℕ → Bool
all_match r = true

abbrev with_four : Request
with_four = with_readers all_match even_fallback (1 ∷ 2 ∷ 3 ∷ 4 ∷ []) request

with_four-matching : with_four.matching_rdr ≡ 3 ∷ 1 ∷ 2 ∷ 4 ∷ []
unfolding with_readers match_readers
with_four-matching = refl

with_readers-primaries_example :
    (with_four.matching_rdr
      ≡ normal all_match even_fallback (1 ∷ 2 ∷ 3 ∷ 4 ∷ []) []
        ++ fallbacks all_match even_fallback (1 ∷ 2 ∷ 3 ∷ 4 ∷ []) [])
    × (primaries with_four.fallback with_four.matching_rdr
        ≡ or_others
            (normal all_match even_fallback (1 ∷ 2 ∷ 3 ∷ 4 ∷ []) [])
            (fallbacks all_match even_fallback (1 ∷ 2 ∷ 3 ∷ 4 ∷ []) []))
with_readers-primaries_example =
    with_readers-primaries all_match even_fallback request (1 ∷ 2 ∷ 3 ∷ 4 ∷ [])

abbrev wrong_sum : Request
wrong_sum = record found { cw = 1 ∷ 2 ∷ 3 ∷ 7 ∷ [] }

mend_request-HasSums_example :
    (HasSums wrong_sum.cw × (mend_request true wrong_sum ≡ wrong_sum))
    ⊎ ((¬ HasSums wrong_sum.cw)
        × (((true ≡ true)
              × (mend_request true wrong_sum
                  ≡ record wrong_sum { rc = e_rdr_notfound; rc_ex = e2_wrong_chksum }))
            ⊎ ((true ≡ false)
                × (mend_request true wrong_sum ≡ record wrong_sum { cw = with_sums wrong_sum.cw })
                × HasSums (with_sums wrong_sum.cw))))
mend_request-HasSums_example = mend_request-HasSums true wrong_sum

abbrev section : List ℕ
section = set (replicate 512 0) 2 20

provider_loop-In_example : provider_loop 23 23 section 8 ≢ outside
provider_loop-In_example = provider_loop-In 23 23 section 8 (omega arith)

abbrev tunnelled : Request
tunnelled = record request { ecm = set section 5 0x77; l = 23 }

convert_to_beta-payload_example :
    (length (convert_to_beta tunnelled 0x1702).ecm ≡ 512)
    × ((convert_to_beta tunnelled 0x1702).l ≡ 23 + 10)
    × (at (convert_to_beta tunnelled 0x1702).ecm (13 + 2) ≡ 0x77)
convert_to_beta-payload_example =
    convert_to_beta-payload tunnelled 0x1702 2 refl (omega arith) refl (omega arith)

abbrev other_ban : VBan
other_ban = record { v_count = 1; v_ip = 0x7f000001; v_port = 9000; v_time = 990 }

cs_check_v-Bans_example :
    ((cs_check_v 5 3 1000 0x7f000001 9000 false (other_ban ∷ [])).1 ≡ true)
    ↔ Exists (Bans 1000 (5 * 60) 0x7f000001 9000) (other_ban ∷ [])
cs_check_v-Bans_example =
    cs_check_v-Bans 5 3 1000 0x7f000001 9000 false (other_ban ∷ []) (λ e. omega arith)

-- A hit on an entry that waits for its answer gives a pointer to it, and another client's look six
-- seconds later frees the entry.
abbrev old_entry : Ecm
old_entry = record open_entry { time = 940 }

abbrev hit_old : Cache × Request × ℕ
hit_old = check_and_store_ecmcache 5000 1004 (record request { tps = 1004 }) 1 (cache_of old_entry)

store_after_hit :
    store_cw_in_cache 1011 hit_old.1 1 e_found (check_cwcache1 5000 1010 request 1 hit_old.0).0
    ≡ none
unfolding check_and_store_ecmcache scan check_cwcache1 store_cw_in_cache entry_at
store_after_hit = refl

abbrev two_slots : List Slot
two_slots = record { last = some 100; srvid = 5 } ∷ record { last = none; srvid = 0 } ∷ []

abbrev six_allowed : List Slot
six_allowed = record { last = some 100; srvid = 5 } ∷ record { last = some 105; srvid = 6 } ∷ []

limit_ecm-six : limit_ecm 105 10 6 two_slots ≡ some six_allowed
unfolding limit_ecm use_service use_space
limit_ecm-six = refl

limit_ecm-seven : limit_ecm 106 10 7 six_allowed ≡ none
unfolding limit_ecm use_service use_space
limit_ecm-seven = refl

limit_ecm-limit_ecm_example :
    (d : List Slot) × (limit_ecm 115 10 6
        (limit_all 10 ((106, 7) ∷ (112, 8) ∷ (113, 9) ∷ []) six_allowed)
      ≡ some d)
limit_ecm-limit_ecm_example =
    limit_ecm-limit_ecm 6 105 10 two_slots six_allowed limit_ecm-six
      ((106, 7) ∷ (112, 8) ∷ (113, 9) ∷ [])
      ((omega arith, omega arith), ((omega arith, omega arith), ((omega arith, omega arith), tt)))
      115
