-- ===== src/Balance/Record/Branches.antt =====
-- About what `add_stat` leaves for each code of an answer.
use mathlib.Core.Path.{subst}
use oscam_vdr.Base.{
  ℕ, ◌+◌, ◌/◌, ◌<◌, ◌≡◌, ◌≢◌, refl, ap, true, false, ◌||◌, Option, none, some, List, [], ◌∷◌, ◌==◌,
  ==_refl, if◌then◌else◌, u32, Bool-cases, Option-cases, ◌⊎◌, inl, inr, arith,
}
use oscam_vdr.Access.{EcmRequest}
use oscam_vdr.Balance.{
  ReaderStat, Settings, negative, inc_fail, calc_stat, rc_found, rc_notfound, rc_timeout, get_prid,
}
use oscam_vdr.Balance.Stats.{
  StatEntry, Place, entries, get_stat, new_stat, counted_up, get_add_stat, same_service,
}
use oscam_vdr.Balance.Stats.Lookup.{Answers, get_stat-Answers}
use oscam_vdr.Balance.Record.{
  ReaderLoad, Answer, Matching, on_found, on_notfound, passing, effective_rc, recorded, add_stat,
  reader_time, at_least_100,
}

get_prid-zero : (tab : List ℕ) (caid : ℕ) → get_prid tab caid 0 ≡ 0
get_prid-zero [] caid = refl
get_prid-zero (t ∷ tab) caid = ground (arith, get_prid-zero tab caid)

get_prid-cases :
    (tab : List ℕ) (caid prid : ℕ) → (get_prid tab caid prid ≡ 0) ⊎ (get_prid tab caid prid ≡ prid)
get_prid-cases [] caid prid = inr refl
get_prid-cases (t ∷ tab) caid prid = ground (arith, get_prid-cases tab caid prid)

-- The provider is mapped once, however often this is done.
get_prid-get_prid :
    (tab : List ℕ) (caid prid : ℕ)
    → get_prid tab caid (get_prid tab caid prid) ≡ get_prid tab caid prid
get_prid-get_prid tab caid prid = elim (get_prid-cases tab caid prid) [
  | inl e ↦ rw e (get_prid-zero tab caid)
  | inr e ↦ ap (get_prid tab caid) e
]

-- The entry at the place is for the request.
abbrev pub ForRequest : ℕ → ℕ → ℕ → ℕ → Place → Type 0
ForRequest caid prid srvid ecmlen p =
    (same_service caid prid srvid p.here.stat ≡ true) × (p.here.stat.ecmlen ≡ ecmlen)

same_service_refl :
    (caid prid srvid ecmlen : ℕ)
    → same_service caid prid srvid (new_stat caid prid srvid ecmlen) ≡ true
same_service_refl caid prid srvid ecmlen = rw (==_refl caid, ==_refl prid, ==_refl srvid) refl

abbrev FoundIf : ℕ → ℕ → ℕ → ℕ → Option Place → Type 0
FoundIf caid prid srvid ecmlen none = Unit
FoundIf caid prid srvid ecmlen (some p) = ForRequest caid prid srvid ecmlen p

Answers-FoundIf :
    (caid prid srvid ecmlen : ℕ) (es : List StatEntry) (o : Option Place)
    → Answers caid prid srvid ecmlen es o
    → FoundIf caid prid srvid ecmlen o
Answers-FoundIf caid prid srvid ecmlen es none h = tt
Answers-FoundIf caid prid srvid ecmlen es (some p) h = (h.0, h.1)

counted_up-ForRequest :
    (caid prid srvid ecmlen : ℕ) (p : Place)
    → ForRequest caid prid srvid ecmlen p
    → ForRequest caid prid srvid ecmlen
        (record p { here = record p.here { stat = counted_up p.here.stat } })
counted_up-ForRequest caid prid srvid ecmlen p h =
    elim (Bool-cases (negative p.here.stat.ecm_count)) [ inl b ↦ rw b h | inr b ↦ rw b h ]

get_add_stat-ForRequest :
    (tab : List ℕ) (caid prid srvid ecmlen : ℕ) (es : List StatEntry)
    → get_prid tab caid prid ≡ prid
    → ForRequest caid prid srvid ecmlen (get_add_stat tab caid prid srvid ecmlen es)
unfolding get_add_stat
get_add_stat-ForRequest tab caid prid srvid ecmlen es e =
    let k : FoundIf caid prid srvid ecmlen (get_stat tab caid prid srvid ecmlen es) =
      subst (λ (q : ℕ). FoundIf caid q srvid ecmlen (get_stat tab caid prid srvid ecmlen es)) e
        (Answers-FoundIf caid (get_prid tab caid prid) srvid ecmlen es
          (get_stat tab caid prid srvid ecmlen es)
          (get_stat-Answers tab caid prid srvid ecmlen es)) in
    elim (Option-cases (get_stat tab caid prid srvid ecmlen es)) [
      | inl n ↦ rw (get_add_stat, n) (same_service_refl caid prid srvid ecmlen, refl)
      | inr (p, f) ↦
          rw (get_add_stat, f)
            (counted_up-ForRequest caid prid srvid ecmlen p
              (subst (FoundIf caid prid srvid ecmlen) f k))
    ]

-- The list has an entry for the request whose statistics are these.
abbrev pub Has : EcmRequest → ℕ → (ReaderStat → Type 0) → List StatEntry → Type 0
Has er prid P es =
    (p : Place) × (es ≡ entries p) × ForRequest er.caid prid er.srvid er.l p × P p.here.stat

abbrev pub Known : ℕ → ℕ → ReaderStat → Type 0
Known ctime rc stat = (stat.rc ≡ rc) × (stat.last_received ≡ ctime)

failed_lem :
    (cfg : Settings) (a : Answer) (caid prid srvid ecmlen : ℕ) (stat : ReaderStat)
    → same_service caid prid srvid stat ≡ true
    → stat.ecmlen ≡ ecmlen
    → let stat' = record (inc_fail cfg.overflowed (record stat { rc = rc_notfound })) {
      last_received = a.ctime;
    } in
      let stat'' =
        if cfg.lb_reopen_mode == 0
        then record stat' { ecm_count = stat'.ecm_count / 10 }
        else stat' in
      (same_service caid prid srvid stat'' ≡ true)
      × (stat''.ecmlen ≡ ecmlen)
      × Known a.ctime rc_notfound stat''
unfolding inc_fail
failed_lem cfg a caid prid srvid ecmlen stat s l =
    elim (Bool-cases (negative stat.fail_factor || stat.fail_factor == 0)) [
      | inl f ↦ rw f (elim (Bool-cases (cfg.lb_reopen_mode == 0)) [
        | inl b ↦ rw b (s, l, (refl, refl))
        | inr b ↦ rw b (s, l, (refl, refl))
      ])
      | inr f ↦ rw f (elim (Bool-cases (cfg.lb_reopen_mode == 0)) [
        | inl b ↦ rw b (s, l, (refl, refl))
        | inr b ↦ rw b (s, l, (refl, refl))
      ])
    ]

on_notfound_lem :
    (cfg : Settings) (a : Answer) (caid prid srvid ecmlen : ℕ) (stat : ReaderStat)
    → same_service caid prid srvid stat ≡ true
    → stat.ecmlen ≡ ecmlen
    → (same_service caid prid srvid (on_notfound cfg a stat) ≡ true)
      × ((on_notfound cfg a stat).ecmlen ≡ ecmlen)
      × Known a.ctime rc_notfound (on_notfound cfg a stat)
unfolding on_notfound inc_fail
on_notfound_lem cfg a caid prid srvid ecmlen stat s l = elim (Bool-cases (stat.rc == rc_notfound)) [
  | inl b ↦ rw b (
      failed_lem cfg a caid prid srvid ecmlen
        (record stat { time_avg = u32 (stat.time_avg + at_least_100 a.ecm_time) }) s l)
  | inr b ↦ rw b (failed_lem cfg a caid prid srvid ecmlen stat s l)
]

module _ (cfg : Settings) (m : Matching) (rdr : ℕ) (er : EcmRequest) (a : Answer)
    (r : ReaderLoad) where
  abbrev prid_of : ℕ
  prid_of = get_prid cfg.lb_noproviderforcaid er.caid er.prid

  abbrev place_of : Place
  place_of = get_add_stat cfg.lb_noproviderforcaid er.caid prid_of er.srvid er.l r.lb_stat

  for_request : ForRequest er.caid prid_of er.srvid er.l place_of
  for_request =
      get_add_stat-ForRequest cfg.lb_noproviderforcaid er.caid prid_of er.srvid er.l r.lb_stat
        (get_prid-get_prid cfg.lb_noproviderforcaid er.caid er.prid)

  -- With the load balancer on, an ECM that a reader with a client has found leaves an entry for the
  -- request that says so, at this time and with the fail factor 0.
  pub add_stat-Has_found :
      cfg.lb_mode ≢ 0
      → effective_rc cfg a ≡ rc_found
      → Has er prid_of
          (λ stat. Known a.ctime rc_found stat × (stat.fail_factor ≡ 0))
          (add_stat cfg true m rdr er a r).lb_stat
  unfolding add_stat recorded on_found calc_stat
  add_stat-Has_found n e =
      let on : (cfg.lb_mode == 0) ≡ false = ground arith in
      rw (on, e)
        (
          record place_of {
            here = record place_of.here {
              stat = on_found a.ctime (reader_time cfg m rdr a.ecm_time) place_of.here.stat;
            };
          },
          refl,
          for_request,
          ((refl, refl), refl),
        )

  -- One that it has not found leaves an entry that says so, unless the reader only passed the
  -- request on.
  pub add_stat-Has_notfound :
      cfg.lb_mode ≢ 0
      → effective_rc cfg a ≡ rc_notfound
      → passing er.rc_ex ≡ false
      → Has er prid_of (Known a.ctime rc_notfound) (add_stat cfg true m rdr er a r).lb_stat
  unfolding add_stat recorded
  add_stat-Has_notfound n e f =
      let on : (cfg.lb_mode == 0) ≡ false = ground arith in
      let (s, l, k) =
        on_notfound_lem cfg a er.caid prid_of er.srvid er.l place_of.here.stat for_request.0
          for_request.1 in
      rw (on, e, f)
        (
          record place_of {
            here = record place_of.here { stat = on_notfound cfg a place_of.here.stat };
          },
          refl,
          (s, l),
          k,
        )

  -- A code that is not handled changes nothing.
  pub add_stat_unhandled : 5 < effective_rc cfg a → add_stat cfg true m rdr er a r ≡ r
  unfolding add_stat recorded
  add_stat_unhandled b = elim (Bool-cases (cfg.lb_mode == 0)) [
    | inl o ↦ rw o refl
    | inr o ↦
        let c0 : (effective_rc cfg a == rc_found) ≡ false = ground arith in
        let c1 : (effective_rc cfg a == 1) ≡ false = ground arith in
        let c2 : (effective_rc cfg a == 2) ≡ false = ground arith in
        let c4 : (effective_rc cfg a == rc_notfound) ≡ false = ground arith in
        let c5 : (effective_rc cfg a == rc_timeout) ≡ false = ground arith in
        rw (o, c0, c1, c2, c4, c5) refl
  ]
