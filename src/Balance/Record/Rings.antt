-- ===== src/Balance/Record/Rings.antt =====
-- About the ring of answer times that the statistics keep.
use mathlib.Core.Path.{subst}
use oscam_vdr.Base.{
  ℕ, ◌+◌, ◌<◌, ◌≡◌, refl, ◌∙◌, Bool, true, false, ◌&&◌, ◌||◌, not, Option, none, some, List, [],
  ◌∷◌, ◌++◌, ltb, leb, ◌==◌, nonzero, if◌then◌else◌, u32, length, length-set, All, Bool-cases,
  Option-cases, inl, inr, arith,
}
use oscam_vdr.Access.{EcmRequest}
use oscam_vdr.Balance.{
  ReaderStat, Settings, negative, inc_fail, calc_stat, rc_found, rc_notfound, rc_timeout, get_prid,
}
use oscam_vdr.Balance.Stats.{
  StatEntry, Place, fits, found_first, search, faster, get_stat, get_add_stat, same_service,
}
use oscam_vdr.Balance.Record.{
  ReaderLoad, Answer, Matching, store_time, on_found, on_notfound, on_timeout, received, at_place,
  if_place, passing, effective_rc, recorded, add_stat, reader_time, at_least_100, sudden, settled,
}

-- Ten times, of which the index is one.
abbrev pub Ring : ReaderStat → Type 0
Ring stat = (length stat.time_stat ≡ 10) × (stat.time_idx < 10)

abbrev pub Rings : List StatEntry → Type 0
Rings = All λ (e : StatEntry). Ring e.stat

-- A change that keeps the ring.
abbrev pub Keeps : (ReaderStat → ReaderStat) → Type 0
Keeps f = (stat : ReaderStat) → Ring stat → Ring (f stat)

Keeps-store_time : (time : ℕ) → Keeps (store_time time)
unfolding calc_stat
Keeps-store_time time stat h = (
  length-set stat.time_stat (if leb 10 (stat.time_idx + 1) then 0 else stat.time_idx + 1) time
      ∙ h.0,
  ground arith,
)

Ring-if : (b : Bool) (x y : ReaderStat) → Ring x → Ring y → Ring (if b then x else y)
Ring-if true x y h k = h
Ring-if false x y h k = k

Keeps-inc_fail : (overflowed : ℕ) → Keeps (inc_fail overflowed)
unfolding inc_fail
Keeps-inc_fail overflowed stat h = (ground (arith, h.0), ground (arith, h.1))

Keeps-on_found : (ctime time : ℕ) → Keeps (on_found ctime time)
unfolding on_found
Keeps-on_found ctime time stat h = Keeps-store_time time _ h

Keeps-on_notfound : (cfg : Settings) (a : Answer) → Keeps (on_notfound cfg a)
unfolding on_notfound
Keeps-on_notfound cfg a stat h =
    let failed = Keeps-inc_fail cfg.overflowed _ (
      Ring-if (stat.rc == rc_notfound)
        (record stat { time_avg = u32 (stat.time_avg + at_least_100 a.ecm_time) }) stat h h) in
    Ring-if (cfg.lb_reopen_mode == 0) _ _ failed failed

Keeps-on_timeout : (cfg : Settings) (a : Answer) → Keeps (on_timeout cfg a)
unfolding on_timeout
Keeps-on_timeout cfg a stat h =
    let fresh = stat.rc == 0 && stat.ecm_count == 0 in
    Keeps-store_time _ _ (
      Ring-if (sudden cfg a stat && fresh) (record stat { rc = rc_timeout })
        (if settled cfg a && fresh
          then inc_fail cfg.overflowed (record stat { rc = rc_timeout })
          else stat)
        h
        (Ring-if (settled cfg a && fresh)
          (inc_fail cfg.overflowed (record stat { rc = rc_timeout })) stat
          (Keeps-inc_fail cfg.overflowed (record stat { rc = rc_timeout }) h) h))

Rings-append : (xs ys : List StatEntry) → Rings xs → Rings ys → Rings (xs ++ ys)
Rings-append [] ys h k = k
Rings-append (x ∷ xs) ys h k = (h.0, Rings-append xs ys h.1 k)

-- The rings before a place, at it, and behind it.
abbrev pub Round : Place → Type 0
Round p = Rings p.before × Ring p.here.stat × Rings p.behind

abbrev RoundIf : Option Place → Type 0
RoundIf none = Unit
RoundIf (some p) = Round p

abbrev RingIf : Option ReaderStat → Type 0
RingIf none = Unit
RingIf (some stat) = Ring stat

found_first-Round :
    (e : StatEntry) (es : List StatEntry) (o : Option ReaderStat) (r : Option Place)
    → Ring e.stat
    → Rings es
    → RingIf o
    → RoundIf r
    → RoundIf (found_first e es o r)
found_first-Round e es (some stat) r h hs k rs = (tt, k, hs)
found_first-Round e es none none h hs k rs = tt
found_first-Round e es none (some p) h hs k rs = ((h, rs.0), rs.1, rs.2)

fits-RingIf :
    (caid prid srvid ecmlen : ℕ) (stat : ReaderStat)
    → Ring stat
    → RingIf (fits caid prid srvid ecmlen stat)
fits-RingIf caid prid srvid ecmlen stat h = elim (Bool-cases (same_service caid prid srvid stat)) [
  | inr n ↦ rw n tt
  | inl y ↦ rw y (elim (Bool-cases (stat.ecmlen == ecmlen)) [
    | inl e ↦ rw e h
    | inr ne ↦ rw ne (elim (Bool-cases (stat.ecmlen == 0)) [ inl z ↦ rw z h | inr nz ↦ rw nz tt ])
  ])
]

search-Round :
    (caid prid srvid ecmlen : ℕ) (es : List StatEntry)
    → Rings es
    → RoundIf (search (fits caid prid srvid ecmlen) es)
search-Round caid prid srvid ecmlen [] h = tt
search-Round caid prid srvid ecmlen (e ∷ es) h =
    found_first-Round e es (fits caid prid srvid ecmlen e.stat)
      (search (fits caid prid srvid ecmlen) es) h.0 h.1
      (fits-RingIf caid prid srvid ecmlen e.stat h.0) (search-Round caid prid srvid ecmlen es h.1)

faster-Round : (r : Option Place) → RoundIf r → RoundIf (faster r)
faster-Round none h = tt
faster-Round (some p) h = elim (Bool-cases (ltb 10 (length p.before + 1))) [
  | inr n ↦ rw n h
  | inl y ↦ rw y (elim (Bool-cases (nonzero p.here.flag)) [
    | inl f ↦ rw f h
    | inr f ↦ rw f (tt, h.1, Rings-append p.before p.behind h.0 h.2)
  ])
]

get_stat-Round :
    (tab : List ℕ) (caid prid srvid ecmlen : ℕ) (es : List StatEntry)
    → Rings es
    → RoundIf (get_stat tab caid prid srvid ecmlen es)
unfolding get_stat
get_stat-Round tab caid prid srvid ecmlen es h =
    faster-Round (search (fits caid (get_prid tab caid prid) srvid ecmlen) es)
      (search-Round caid (get_prid tab caid prid) srvid ecmlen es h)

get_add_stat-Round :
    (tab : List ℕ) (caid prid srvid ecmlen : ℕ) (es : List StatEntry)
    → Rings es
    → Round (get_add_stat tab caid prid srvid ecmlen es)
unfolding get_add_stat
get_add_stat-Round tab caid prid srvid ecmlen es h =
    let k = get_stat-Round tab caid prid srvid ecmlen es h in
    elim (Option-cases (get_stat tab caid prid srvid ecmlen es)) [
      | inl e ↦ rw (get_add_stat, e) (h, (refl, omega arith), tt)
      | inr (p, e) ↦
          rw (get_add_stat, e)
            (let q : Round p = subst RoundIf e k in
              (q.0, Ring-if (negative p.here.stat.ecm_count) _ _ q.1 q.1, q.2))
    ]

at_place-Rings :
    (f : ReaderStat → ReaderStat) (p : Place) → Keeps f → Round p → Rings (at_place f p)
at_place-Rings f p k h = Rings-append p.before _ h.0 (k p.here.stat h.1, h.2)

if_place-Rings :
    (f : ReaderStat → ReaderStat) (es : List StatEntry) (o : Option Place)
    → Keeps f
    → Rings es
    → RoundIf o
    → Rings (if_place f es o)
if_place-Rings f es none k hs h = hs
if_place-Rings f es (some p) k hs h = at_place-Rings f p k h

Rings-if : (b : Bool) (xs ys : List StatEntry) → Rings xs → Rings ys → Rings (if b then xs else ys)
Rings-if true xs ys h k = h
Rings-if false xs ys h k = k

recorded-Rings :
    (cfg : Settings) (m : Matching) (rdr : ℕ) (er : EcmRequest) (a : Answer) (es : List StatEntry)
    → Rings es
    → Rings (recorded cfg m rdr er a es)
unfolding recorded
recorded-Rings cfg m rdr er a es h =
    let tab = cfg.lb_noproviderforcaid in
    let prid = get_prid tab er.caid er.prid in
    let known = get_stat tab er.caid prid er.srvid er.l es in
    let place = get_add_stat tab er.caid prid er.srvid er.l es in
    let round = get_add_stat-Round tab er.caid prid er.srvid er.l es h in
    let rc = effective_rc cfg a in
    let found = on_found a.ctime (reader_time cfg m rdr a.ecm_time) in
    let cache =
      if_place-Rings (received a.ctime) es known (λ stat k. k) h
        (get_stat-Round tab er.caid prid er.srvid er.l es h) in
    Rings-if (rc == rc_found) _ _
      (at_place-Rings found place (Keeps-on_found a.ctime (reader_time cfg m rdr a.ecm_time)) round)
      (Rings-if (rc == 1 || rc == 2) _ _ cache (
        Rings-if (rc == rc_notfound) _ _
          (Rings-if (passing er.rc_ex) _ _ cache
            (at_place-Rings (on_notfound cfg a) place (Keeps-on_notfound cfg a) round))
          (Rings-if (rc == rc_timeout) _ _
            (at_place-Rings (on_timeout cfg a) place (Keeps-on_timeout cfg a) round) h)))

-- Recording an answer keeps the rings: each entry has its ten times, and an index that is one of
-- them.
pub add_stat-Rings :
    (cfg : Settings) (client : Bool) (m : Matching) (rdr : ℕ) (er : EcmRequest) (a : Answer)
    (r : ReaderLoad)
    → Rings r.lb_stat
    → Rings (add_stat cfg client m rdr er a r).lb_stat
unfolding add_stat
add_stat-Rings cfg client m rdr er a r h = elim (Bool-cases (cfg.lb_mode == 0 || not client)) [
  | inl b ↦ rw b h
  | inr b ↦ rw b (recorded-Rings cfg m rdr er a r.lb_stat h)
]
