-- ===== src/AntiCascade.antt =====
-- oscam-ac.c: the anti-cascading statistics. A client collects weight in `ac_count`; once in a
-- period `ac_do_stat` moves it into the samples of the client's account and decides who is denied.
pub mod Period
pub mod Requests
mod Tests
use oscam_vdr.Base.{
  ℕ, ◌+◌, ◌*◌, ◌/◌, ◌%◌, Bool, true, false, ◌&&◌, ◌||◌, not, Option, none, some, List, [], ◌∷◌,
  ◌==◌, leb, ltb, nonzero, if◌then◌else◌, get_or, get_elem?, set, take, replicate, u8, u16,
}

-- `struct s_acasc_shm`: 15 bits and one bit.
pub record Acasc : Type 0 where
  pub ac_count : ℕ
  pub ac_deny : Bool

-- `struct s_acasc`: ten samples of 16 bits, and the sample in use.
pub record AcStat : Type 0 where
  pub stat : List ℕ
  pub idx : ℕ

pub record Account : Type 0 where
  pub ac_users : ℕ
  pub ac_penalty : ℕ
  pub ac_stat : AcStat

-- `is_client` is `typ == 'c'`. Clients share accounts, so `account` is a place in the list of
-- accounts.
pub record AcClient : Type 0 where
  pub is_client : Bool
  pub ac_limit : ℕ
  pub acasc : Acasc
  pub account : ℕ

pub record Cpmap : Type 0 where
  pub caid : ℕ
  pub provid : ℕ
  pub sid : ℕ
  pub chid : ℕ
  pub dwtime : ℕ

pub record Config : Type 0 where
  pub ac_enabled : Bool
  pub ac_stime : ℕ
  pub ac_samples : ℕ
  pub ac_denysamples : ℕ
  pub cpmap : List Cpmap

abbrev pub cleared : Acasc
cleared = record { ac_count = 0; ac_deny = false }

abbrev pub no_stat : AcStat
no_stat = record { stat = replicate 10 0; idx = 0 }

unfoldable pub clear_clients : List AcClient → List AcClient
clear_clients [] = []
clear_clients (c ∷ cs) =
    (if c.is_client then record c { acasc = cleared } else c) ∷ clear_clients cs

unfoldable pub clear_accounts : List Account → List Account
clear_accounts [] = []
clear_accounts (a ∷ rest) = record a { ac_stat = no_stat } ∷ clear_accounts rest

unfoldable pub ac_clear : List AcClient → List Account → List AcClient × List Account
unfolding clear_clients clear_accounts
ac_clear clients accounts = (clear_clients clients, clear_accounts accounts)

-- Without opening the log.
abbrev pub ac_init_stat : List AcClient → List Account → List AcClient × List Account
ac_init_stat clients accounts = ac_clear clients accounts

-- How many samples are above the limit.
unfoldable pub count_exceeds : ℕ → List ℕ → ℕ
count_exceeds limit [] = 0
count_exceeds limit (s ∷ ss) = (if ltb limit s then 1 else 0) + count_exceeds limit ss

-- The last lines of the loop: the next sample, unless access is or was denied.
abbrev pub next_idx : Config → Bool → Bool → ℕ → ℕ
next_idx cfg deny prev_deny idx =
    if not deny && not prev_deny then u8 ((idx + 1) % cfg.ac_samples) else idx

-- The result for one client: its counters, the samples of its account, and `prev_deny`.
pub record Judged : Type 0 where
  pub acasc : Acasc
  pub ac_stat : AcStat
  pub prev_deny : Bool

-- Where the sample is 0: a denial is lifted.
unfoldable pub judge_idle : Config → Bool → Acasc → AcStat → Judged
judge_idle cfg prev_deny acasc st =
    let prev' = if acasc.ac_deny then true else prev_deny in
    record {
      acasc = cleared;
      ac_stat = record st { idx = next_idx cfg false prev' st.idx };
      prev_deny = prev';
    }

-- Where it is not: a banned account is denied, any other by the number of samples above the limit.
unfoldable pub judge_active : Config → ℕ → ℕ → Bool → Acasc → AcStat → Judged
unfolding count_exceeds
judge_active cfg limit penalty prev_deny acasc st =
    if penalty == 2
    then record {
      acasc = record { ac_count = 0; ac_deny = true };
      ac_stat = st;
      prev_deny = prev_deny;
    }
    else (let deny = leb cfg.ac_denysamples (count_exceeds limit (take cfg.ac_samples st.stat)) in
        record {
          acasc = record { ac_count = 0; ac_deny = deny };
          ac_stat = record {
            stat = if deny then set st.stat st.idx 0 else st.stat;
            idx = next_idx cfg deny acasc.ac_deny st.idx;
          };
          prev_deny = acasc.ac_deny;
        })

-- The body of the loop of `ac_do_stat`.
unfoldable pub judge : Config → ℕ → ℕ → Bool → Acasc → AcStat → Judged
unfolding judge_idle judge_active
judge cfg limit penalty prev_deny acasc st =
    let st' = record st { stat = set st.stat st.idx acasc.ac_count } in
    if nonzero (get_or st'.stat st.idx 0)
    then judge_active cfg limit penalty prev_deny acasc st'
    else judge_idle cfg prev_deny acasc st'

-- The client in front of those that the rest of the loop returns.
unfoldable pub keep :
    AcClient → Option (List AcClient × List Account) → Option (List AcClient × List Account)
keep c none = none
keep c (some (cs, accounts)) = some (c ∷ cs, accounts)

-- The loop over the clients. `prev_deny` is set to 0 before the loop only. None is the fault of a
-- client without an account.
unfoldable pub stat_loop :
    Config → List AcClient → List Account → Bool → Option (List AcClient × List Account)
stat_loop cfg [] accounts prev_deny = some ([], accounts)
stat_loop cfg (c ∷ cs) accounts prev_deny = elim c.is_client [
  | false ↦ keep c (stat_loop cfg cs accounts prev_deny)
  | true ↦ elim (get_elem? accounts c.account) [
    | none ↦ none
    | some a ↦
        let j = judge cfg c.ac_limit a.ac_penalty prev_deny c.acasc a.ac_stat in
        keep (record c { acasc = j.acasc })
          (stat_loop cfg cs (set accounts c.account (record a { ac_stat = j.ac_stat })) j.prev_deny)
  ]
]

unfoldable pub ac_do_stat :
    Config → List AcClient → List Account → Option (List AcClient × List Account)
ac_do_stat cfg clients accounts = stat_loop cfg clients accounts false

-- 0 stands for no limit.
unfoldable pub ac_init_client : Config → AcClient → Account → AcClient
ac_init_client cfg client account = record client {
  ac_limit =
      if cfg.ac_enabled && nonzero account.ac_users
      then u16 ((account.ac_users * 100 + 80) * cfg.ac_stime)
      else 0;
}
