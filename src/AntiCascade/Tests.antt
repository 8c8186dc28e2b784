-- ===== src/AntiCascade/Tests.antt =====
-- Small configurations, clients and requests.
use oscam_vdr.Base.{◌≡◌, refl, true, false, ◌&&◌, ◌||◌, [], ◌∷◌, ◌==◌, leb, nonzero, take, arith}
use oscam_vdr.AntiCascade.{
  Account, AcClient, Cpmap, Config, cleared, no_stat, count_exceeds, judge, ac_do_stat, ac_clear,
  ac_init_stat,
}
use oscam_vdr.AntiCascade.Period.{IsConfig, IsStat, with_count, Ends, judge_deny, ac_do_stat-Ends}

abbrev sport : Cpmap
sport = record { caid = 0x1702; provid = 0; sid = 9; chid = 0; dwtime = 7 }

abbrev config : Config
config = record {
  ac_enabled = true;
  ac_stime = 2;
  ac_samples = 3;
  ac_denysamples = 1;
  cpmap = sport ∷ [];
}

config-IsConfig : IsConfig config
config-IsConfig = record { some_samples = omega arith; few_samples = omega arith }

no_stat-IsStat : IsStat config no_stat
no_stat-IsStat = record { ten = refl; in_use = omega arith }

abbrev busy : AcClient
busy = record {
  is_client = true;
  ac_limit = 10;
  acasc = record { ac_count = 11; ac_deny = false };
  account = 0;
}

abbrev watcher : AcClient
watcher = record { is_client = true; ac_limit = 10; acasc = cleared; account = 0 }

abbrev reader_client : AcClient
reader_client = record { is_client = false; ac_limit = 0; acasc = cleared; account = 7 }

abbrev plain : Account
plain = record { ac_users = 2; ac_penalty = 1; ac_stat = no_stat }

judge_deny_example :
    let j = judge config 10 1 false busy.acasc no_stat in
    (j.acasc.ac_count ≡ 0)
    × (j.acasc.ac_deny
        ≡ (nonzero 11 && (1 == 2 || leb 1 (count_exceeds 10 (take 3 (with_count no_stat 11))))))
judge_deny_example = judge_deny config 10 1 false busy.acasc no_stat config-IsConfig no_stat-IsStat

ac_do_stat-Ends_example :
    Ends config 2 1 (ac_do_stat config (busy ∷ reader_client ∷ []) (plain ∷ []))
ac_do_stat-Ends_example =
    ac_do_stat-Ends config (busy ∷ reader_client ∷ []) (plain ∷ []) config-IsConfig
      (refl, (refl, tt)) (no_stat-IsStat, tt)

-- Starting anew clears the client that is counted, and leaves the reader's alone.
ac_init_stat-busy :
    ac_init_stat (busy ∷ reader_client ∷ []) (plain ∷ [])
    ≡ (record busy { acasc = cleared } ∷ reader_client ∷ [], plain ∷ [])
unfolding ac_clear
ac_init_stat-busy = refl
