-- ===== src/AntiCascade/Period.antt =====
-- About `ac_do_stat`: one client, and all clients of a period.
use oscam_vdr.Base.{
  ℕ, zero, suc, ◌+◌, ◌%◌, ◌≤◌, ◌<◌, ◌≡◌, ◌≢◌, refl, ap, ◌∙◌, Bool, true, false, ◌&&◌, ◌||◌, not,
  Option, none, some, List, [], ◌∷◌, ◌==◌, leb, ltb, nonzero, get_or, get_elem?, set, take, length,
  length-set, get_or-set_self, All, u8, arith, Bool-cases, inl, inr,
}
use native.Mathlib.Nat.{mod-eq_of_lt, mod_self}
use oscam_vdr.AntiCascade.{
  Acasc, AcStat, Account, AcClient, Config, count_exceeds, judge_idle, judge_active, judge, keep,
  stat_loop, ac_do_stat,
}

-- What the configuration reader enforces.
pub record IsConfig (cfg : Config) : Type 0 where
  pub some_samples : 0 < cfg.ac_samples
  pub few_samples : cfg.ac_samples ≤ 10

-- Ten samples, and one of the configured ones in use.
pub record IsStat (cfg : Config) (st : AcStat) : Type 0 where
  pub ten : length st.stat ≡ 10
  pub in_use : st.idx < cfg.ac_samples

-- The samples with the weight of the period put in its place.
abbrev pub with_count : AcStat → ℕ → List ℕ
with_count st count = set st.stat st.idx count

-- After a period a client is denied exactly when it had any weight and its account is banned or
-- enough of the samples, this period's included, are above the limit. Its weight starts anew.
pub judge_deny :
    (cfg : Config) (limit penalty : ℕ) (prev_deny : Bool) (acasc : Acasc) (st : AcStat)
    → IsConfig cfg
    → IsStat cfg st
    → let j = judge cfg limit penalty prev_deny acasc st in
      (j.acasc.ac_count ≡ 0)
      × (j.acasc.ac_deny ≡ (
          nonzero acasc.ac_count
          && (penalty == 2
              || leb cfg.ac_denysamples
                  (count_exceeds limit (take cfg.ac_samples (with_count st acasc.ac_count))))))
unfolding judge judge_idle judge_active
judge_deny cfg limit penalty prev_deny acasc st c s =
    rw (get_or-set_self st.stat st.idx acasc.ac_count 0 (omega arith)) (ground arith)

judge_active-IsStat :
    (cfg : Config) (limit penalty : ℕ) (prev_deny : Bool) (acasc : Acasc) (st : AcStat)
    → IsConfig cfg
    → IsStat cfg st
    → IsStat cfg (judge_active cfg limit penalty prev_deny acasc st).ac_stat
unfolding judge_active
judge_active-IsStat cfg limit penalty prev_deny acasc st c s =
    ground (arith, length-set st.stat st.idx 0)

judge_idle-IsStat :
    (cfg : Config) (prev_deny : Bool) (acasc : Acasc) (st : AcStat)
    → IsConfig cfg
    → IsStat cfg st
    → IsStat cfg (judge_idle cfg prev_deny acasc st).ac_stat
unfolding judge_idle
judge_idle-IsStat cfg prev_deny acasc st c s = ground arith

judge-IsStat :
    (cfg : Config) (limit penalty : ℕ) (prev_deny : Bool) (acasc : Acasc) (st : AcStat)
    → IsConfig cfg
    → IsStat cfg st
    → IsStat cfg (judge cfg limit penalty prev_deny acasc st).ac_stat
judge-IsStat cfg limit penalty prev_deny acasc st c s =
    unfold judge in
    (elim (Bool-cases (nonzero (get_or (set st.stat st.idx acasc.ac_count) st.idx 0))) [
      | inl e ↦ rw e (judge_active-IsStat cfg limit penalty prev_deny acasc _ c s')
      | inr e ↦ rw e (judge_idle-IsStat cfg prev_deny acasc _ c s')
    ])
  where
    s' : IsStat cfg (record st { stat = set st.stat st.idx acasc.ac_count })
    s' = record { ten = length-set st.stat st.idx acasc.ac_count ∙ s.ten; in_use = s.in_use }

-- Every client of a user has an account.
abbrev pub HasAccount : ℕ → AcClient → Type 0
HasAccount n c = (not c.is_client || ltb c.account n) ≡ true

has_account : (n : ℕ) (c : AcClient) → c.is_client ≡ true → HasAccount n c → c.account < n
has_account n c e h = ground arith

-- The samples of every account are well formed.
abbrev pub AreStats : Config → List Account → Type 0
AreStats cfg = All (λ (a : Account). IsStat cfg a.ac_stat)

get_elem?-AreStats :
    (cfg : Config) (accounts : List Account) (i : ℕ)
    → AreStats cfg accounts
    → i < length accounts
    → (a : Account) × (get_elem? accounts i ≡ some a) × IsStat cfg a.ac_stat
get_elem?-AreStats cfg [] i h lt = absurd (omega arith)
get_elem?-AreStats cfg (a ∷ rest) zero h lt = (a, refl, h.0)
get_elem?-AreStats cfg (a ∷ rest) (suc i) h lt = get_elem?-AreStats cfg rest i h.1 (omega arith)

set-AreStats :
    (cfg : Config) (accounts : List Account) (i : ℕ) (a : Account)
    → AreStats cfg accounts
    → IsStat cfg a.ac_stat
    → AreStats cfg (set accounts i a)
set-AreStats cfg [] i a h s = h
set-AreStats cfg (b ∷ rest) zero a h s = (s, h.1)
set-AreStats cfg (b ∷ rest) (suc i) a h s = (h.0, set-AreStats cfg rest i a h.1 s)

-- A run that ended, with as many clients and accounts as before and well-formed samples.
abbrev pub Ends : Config → ℕ → ℕ → Option (List AcClient × List Account) → Type 0
Ends cfg m n none = ⊥
Ends cfg m n (some (cs, accounts)) = (length cs ≡ m) × (length accounts ≡ n) × AreStats cfg accounts

keep-Ends :
    (cfg : Config) (m n : ℕ) (c : AcClient) (r : Option (List AcClient × List Account))
    → Ends cfg m n r
    → Ends cfg (suc m) n (keep c r)
unfolding keep
keep-Ends cfg m n c none h = h
keep-Ends cfg m n c (some (cs, accounts)) h = (ap suc h.0, h.1, h.2)

stat_loop-Ends :
    (cfg : Config) (cs : List AcClient) (accounts : List Account) (prev_deny : Bool) (n : ℕ)
    → IsConfig cfg
    → All (HasAccount n) cs
    → length accounts ≡ n
    → AreStats cfg accounts
    → Ends cfg (length cs) n (stat_loop cfg cs accounts prev_deny)
unfolding stat_loop
stat_loop-Ends cfg [] accounts prev_deny n c h e s = (refl, e, s)
stat_loop-Ends cfg (k ∷ cs) accounts prev_deny n c h e s = elim (Bool-cases k.is_client) [
  | inr other ↦
      rw (other, stat_loop)
        (keep-Ends cfg (length cs) n k _ (stat_loop-Ends cfg cs accounts prev_deny n c h.1 e s))
  | inl client ↦
      let (a, found, st) =
        get_elem?-AreStats cfg accounts k.account s (rw e (has_account n k client h.0)) in
      let j = judge cfg k.ac_limit a.ac_penalty prev_deny k.acasc a.ac_stat in
      let a' = record a { ac_stat = j.ac_stat } in
      let st' = judge-IsStat cfg k.ac_limit a.ac_penalty prev_deny k.acasc a.ac_stat c st in
      rw (client, found, stat_loop)
        (keep-Ends cfg (length cs) n (record k { acasc = j.acasc }) _
          (stat_loop-Ends cfg cs (set accounts k.account a') j.prev_deny n c h.1
            (length-set accounts k.account a' ∙ e) (set-AreStats cfg accounts k.account a' s st')))
]

-- Where every user's client has an account, `ac_do_stat` runs to its end, keeps the clients and
-- accounts in number, and leaves the samples of every account well formed: ten, with one of the
-- configured ones in use.
pub ac_do_stat-Ends :
    (cfg : Config) (cs : List AcClient) (accounts : List Account)
    → IsConfig cfg
    → All (HasAccount (length accounts)) cs
    → AreStats cfg accounts
    → Ends cfg (length cs) (length accounts) (ac_do_stat cfg cs accounts)
unfolding ac_do_stat
ac_do_stat-Ends cfg cs accounts c h s =
    stat_loop-Ends cfg cs accounts false (length accounts) c h refl s

next_moves : (i n : ℕ) → i < n → 1 < n → n ≤ 10 → u8 ((i + 1) % n) ≢ i
next_moves i n lt many few e = elim (Bool-cases (i + 1 == n)) [
  | inl last ↦
      let q : i + 1 ≡ n = ground arith in omega (arith, mod_self n, ap (λ (t : ℕ). t % n) q)
  | inr inside ↦ omega (arith, mod-eq_of_lt {n = i + 1} {m = n} (ground arith))
]

-- `prev_deny` outlives the client that it was set for: behind a client whose denial is lifted, the
-- sample of an idle client that was never denied does not move on, though it would on its own.
pub judge_carries :
    (cfg : Config) (lifted idle : Acasc) (st st' : AcStat) (limit penalty limit' penalty' : ℕ)
    → IsConfig cfg
    → 1 < cfg.ac_samples
    → IsStat cfg st
    → IsStat cfg st'
    → lifted ≡ record { ac_count = 0; ac_deny = true }
    → idle ≡ record { ac_count = 0; ac_deny = false }
    → let j = judge cfg limit penalty false lifted st in
      ((judge cfg limit' penalty' j.prev_deny idle st').ac_stat.idx ≡ st'.idx)
      × ((judge cfg limit' penalty' false idle st').ac_stat.idx ≢ st'.idx)
unfolding judge judge_idle
judge_carries cfg lifted idle st st' limit penalty limit' penalty' c many s s' e e' =
    rw
      (
        e,
        e',
        get_or-set_self st.stat st.idx 0 0 (omega arith),
        get_or-set_self st'.stat st'.idx 0 0 (omega arith),
      )
      (refl, λ h. next_moves st'.idx cfg.ac_samples s'.in_use many c.few_samples h)
