-- ===== src/Balance/Stats/Lookup.antt =====
-- About `get_stat` and `get_add_stat`: which entry they return.
use oscam_vdr.Base.{
  ℕ, ◌+◌, ◌≡◌, ◌≢◌, refl, true, Option, none, some, List, [], ◌∷◌, ltb, ◌==◌, nonzero, u8, length,
  length-append, All, Bool-cases, inl, inr, arith,
}
use oscam_vdr.Balance.{ReaderStat, get_prid}
use oscam_vdr.Balance.Stats.{
  StatEntry, Place, entries, same_service, fits, found_first, search, move_first, faster, get_stat,
}

-- The entry at the place is for the service and the length, and none was lost or added.
abbrev pub Found : ℕ → ℕ → ℕ → ℕ → List StatEntry → Place → Type 0
Found caid prid srvid ecmlen es p =
    (same_service caid prid srvid p.here.stat ≡ true)
    × (p.here.stat.ecmlen ≡ ecmlen)
    × (length (entries p) ≡ length es)

-- No entry is for the service with this length or without one.
abbrev pub Lacks : ℕ → ℕ → ℕ → ℕ → List StatEntry → Type 0
Lacks caid prid srvid ecmlen = All (λ (e : StatEntry).
    same_service caid prid srvid e.stat ≡ true → (e.stat.ecmlen ≢ ecmlen) × (e.stat.ecmlen ≢ 0))

abbrev pub Answers : ℕ → ℕ → ℕ → ℕ → List StatEntry → Option Place → Type 0
Answers caid prid srvid ecmlen es none = Lacks caid prid srvid ecmlen es
Answers caid prid srvid ecmlen es (some p) = Found caid prid srvid ecmlen es p

-- What `fits` says of the statistics of an entry.
abbrev Says : ℕ → ℕ → ℕ → ℕ → ReaderStat → Option ReaderStat → Type 0
Says caid prid srvid ecmlen stat none =
    same_service caid prid srvid stat ≡ true → (stat.ecmlen ≢ ecmlen) × (stat.ecmlen ≢ 0)
Says caid prid srvid ecmlen stat (some stat') =
    (same_service caid prid srvid stat' ≡ true) × (stat'.ecmlen ≡ ecmlen)

fits-Says :
    (caid prid srvid ecmlen : ℕ) (stat : ReaderStat)
    → Says caid prid srvid ecmlen stat (fits caid prid srvid ecmlen stat)
fits-Says caid prid srvid ecmlen stat = elim (Bool-cases (same_service caid prid srvid stat)) [
  | inr n ↦ rw n (λ h. absurd (ground (arith, h)))
  | inl y ↦ rw y (elim (Bool-cases (stat.ecmlen == ecmlen)) [
    | inl e ↦ rw e (y, ground arith)
    | inr ne ↦ rw ne (elim (Bool-cases (stat.ecmlen == 0)) [
      | inl z ↦ rw z (y, refl)
      | inr nz ↦ rw nz (λ h. (ground arith, ground arith))
    ])
  ])
]

found_first-Answers :
    (caid prid srvid ecmlen : ℕ) (e : StatEntry) (es : List StatEntry) (o : Option ReaderStat)
    (r : Option Place)
    → Says caid prid srvid ecmlen e.stat o
    → Answers caid prid srvid ecmlen es r
    → Answers caid prid srvid ecmlen (e ∷ es) (found_first e es o r)
found_first-Answers caid prid srvid ecmlen e es (some s) r h k = (h.0, h.1, refl)
found_first-Answers caid prid srvid ecmlen e es none none h k = (h, k)
found_first-Answers caid prid srvid ecmlen e es none (some p) h k = (k.0, k.1, omega (arith, k.2))

search-Answers :
    (caid prid srvid ecmlen : ℕ) (es : List StatEntry)
    → Answers caid prid srvid ecmlen es (search (fits caid prid srvid ecmlen) es)
search-Answers caid prid srvid ecmlen [] = tt
search-Answers caid prid srvid ecmlen (e ∷ es) =
    found_first-Answers caid prid srvid ecmlen e es (fits caid prid srvid ecmlen e.stat)
      (search (fits caid prid srvid ecmlen) es) (fits-Says caid prid srvid ecmlen e.stat)
      (search-Answers caid prid srvid ecmlen es)

move_first-Found :
    (caid prid srvid ecmlen : ℕ) (es : List StatEntry) (p : Place)
    → Found caid prid srvid ecmlen es p
    → Found caid prid srvid ecmlen es (move_first p)
move_first-Found caid prid srvid ecmlen es p h = elim (Bool-cases (nonzero p.here.flag)) [
  | inl f ↦ rw f (
    h.0,
    h.1,
    omega (
      arith,
      h.2,
      length-append p.before (p.here ∷ p.behind),
      length-append p.before (record p.here { flag = u8 (p.here.flag + 1) } ∷ p.behind),
    ),
  )
  | inr f ↦ rw f (
    h.0,
    h.1,
    omega (arith, h.2, length-append p.before (p.here ∷ p.behind), length-append p.before p.behind),
  )
]

faster-Answers :
    (caid prid srvid ecmlen : ℕ) (es : List StatEntry) (r : Option Place)
    → Answers caid prid srvid ecmlen es r
    → Answers caid prid srvid ecmlen es (faster r)
faster-Answers caid prid srvid ecmlen es none h = h
faster-Answers caid prid srvid ecmlen es (some p) h =
    elim (Bool-cases (ltb 10 (length p.before + 1))) [
      | inl b ↦ rw b (move_first-Found caid prid srvid ecmlen es p h)
      | inr b ↦ rw b h
    ]

-- `get_stat` returns an entry for the service, with the provider taken as 0 where the settings say
-- so, whose length is now that of the ECM, and keeps the number of entries. It returns none only
-- where no entry is for the service with this length or without one.
pub get_stat-Answers :
    (tab : List ℕ) (caid prid srvid ecmlen : ℕ) (es : List StatEntry)
    → Answers caid (get_prid tab caid prid) srvid ecmlen es (get_stat tab caid prid srvid ecmlen es)
unfolding get_stat
get_stat-Answers tab caid prid srvid ecmlen es =
    faster-Answers caid (get_prid tab caid prid) srvid ecmlen es
      (search (fits caid (get_prid tab caid prid) srvid ecmlen) es)
      (search-Answers caid (get_prid tab caid prid) srvid ecmlen es)
