-- ===== src/Balance/Stats/Cleanup.antt =====
-- About `remove_stat` and the removal of old entries.
use oscam_vdr.Base.{
  ℕ, ◌+◌, ◌≡◌, refl, ap, Bool, ◌&&◌, ◌||◌, List, [], ◌∷◌, ltb, ◌==◌, if◌then◌else◌, length, All,
  Bool-cases, inl, inr, arith,
}
use oscam_vdr.Balance.{ReaderStat}
use oscam_vdr.Balance.Stats.{StatEntry, same_service, remove_where, remove_stat, housekeeping}

-- The entries whose statistics are wanted.
abbrev pub wanted : (ReaderStat → Bool) → List StatEntry → List StatEntry
wanted unwanted [] = []
wanted unwanted (e ∷ es) =
    let rest = wanted unwanted es in if unwanted e.stat then rest else e ∷ rest

remove_where-wanted :
    (unwanted : ReaderStat → Bool) (es : List StatEntry)
    → All (λ (e : StatEntry). e.flag ≡ 0) es
    → ((remove_where unwanted es).1 ≡ wanted unwanted es)
      × ((remove_where unwanted es).0 + length (wanted unwanted es) ≡ length es)
remove_where-wanted unwanted [] a = (refl, refl)
remove_where-wanted unwanted (e ∷ es) a =
    let (i, n) = remove_where-wanted unwanted es a.1 in
    elim (Bool-cases (unwanted e.stat)) [
      | inl u ↦ rw (u, a.0) (i, omega (arith, n))
      | inr u ↦ rw u (ap (λ (t : List StatEntry). e ∷ t) i, omega (arith, n))
    ]

-- The entries for the service with the length, or without one.
abbrev pub named : ℕ → ℕ → ℕ → ℕ → ReaderStat → Bool
named caid prid srvid ecmlen stat =
    same_service caid prid srvid stat && (stat.ecmlen == 0 || stat.ecmlen == ecmlen)

-- `remove_stat` and the housekeeping take every entry that they look for out of a list without
-- flagged nodes, keep the others in their order, and count those that they took out.
pub remove_stat-wanted :
    (caid prid srvid ecmlen cleanup_time : ℕ) (es : List StatEntry)
    → All (λ (e : StatEntry). e.flag ≡ 0) es
    → let (n, rest) = remove_stat caid prid srvid ecmlen es in
      let (m, young) = housekeeping cleanup_time es in
      (rest ≡ wanted (named caid prid srvid ecmlen) es)
      × (n + length rest ≡ length es)
      × (young ≡ wanted (λ stat. ltb stat.last_received cleanup_time) es)
      × (m + length young ≡ length es)
unfolding remove_stat housekeeping
remove_stat-wanted caid prid srvid ecmlen cleanup_time es a =
    let (i, n) = remove_where-wanted (named caid prid srvid ecmlen) es a in
    let (j, m) = remove_where-wanted (λ stat. ltb stat.last_received cleanup_time) es a in
    (i, rw i n, j, rw j m)
