-- ===== src/Server/Cache/Answers.antt =====
-- About the answers that come from the cache.
use oscam_vdr.Base.{
  ℕ, ◌+◌, ◌≤◌, ◌<◌, ◌≡◌, ◌≢◌, refl, Bool, true, false, ◌&&◌, some, ◌==◌, leb, if◌then◌else◌,
  bit_and, Exists, Bool-cases, Option-cases, ◌⊎◌, inl, inr, arith,
}
use oscam_vdr.Server.{Request, e_found, e_cache1, e_unhandled, cache_timeout}
use oscam_vdr.Server.Cache.{
  Ecm, Cache, oldest, same_bytes, same_ecm, scan, check_and_store_ecmcache, check_cwcache1,
  entry_at, put_at, overwrite, store_cw_in_cache,
}
use oscam_vdr.Server.Cache.Scan.{
  same_bytes-eq, same_bytes_refl, Exists-map, scan-Found, scan-Finds, put_at-Has,
}

-- The entry is of the request's ECM, its group is one of the client's or the client has none, and
-- it is in time.
pub record Answers (t : ℕ) (er : Request) (mine : ℕ) (e : Ecm) : Type 0 where
  pub caid : e.caid ≡ er.caid
  pub ecmd5 : e.ecmd5 ≡ er.ecmd5
  pub grp : (mine ≡ 0) ⊎ (bit_and mine e.grp ≢ 0)
  pub time : t ≤ e.time

same_ecm-Answers :
    (t : ℕ) (er : Request) (grp : ℕ) (e : Ecm)
    → same_ecm er grp e ≡ true
    → t ≤ e.time
    → Answers t er grp e
same_ecm-Answers t er grp e h l = elim (Bool-cases (same_bytes e.ecmd5 er.ecmd5)) [
  | inl b ↦ record {
    caid = ground arith;
    ecmd5 = same_bytes-eq e.ecmd5 er.ecmd5 b;
    grp = ground arith;
    time = l;
  }
  | inr b ↦ absurd (ground arith)
]

Answers-same_ecm :
    (t : ℕ) (er : Request) (grp : ℕ) (e : Ecm) → Answers t er grp e → same_ecm er grp e ≡ true
Answers-same_ecm t er grp e a =
    let b : same_bytes e.ecmd5 er.ecmd5 ≡ true = rw a.ecmd5 (same_bytes_refl er.ecmd5) in
    elim a.grp [ inl z ↦ ground (arith, a.caid) | inr n ↦ ground (arith, a.caid) ]

-- The code that a client gets for an entry's code.
abbrev pub code_of : ℕ → ℕ
code_of rc = if rc == e_found then e_cache1 else rc

-- A code other than `E_UNHANDLED` is what clients get for the code of an entry, `E_CACHE1` for
-- `E_FOUND` and else the same, and the control words are that entry's. The entry is for the same
-- caid and MD5 sum, in time, and of one of the client's groups unless the client has none.
pub check_and_store_ecmcache-Answers :
    (ctimeout now : ℕ) (er : Request) (grp : ℕ) (c : Cache)
    → (check_and_store_ecmcache ctimeout now er grp c).2 ≢ e_unhandled
    → Exists
        (λ e.
          Answers (oldest ctimeout now) er grp e
          × ((check_and_store_ecmcache ctimeout now er grp c).2 ≡ code_of e.rc)
          × ((check_and_store_ecmcache ctimeout now er grp c).1.cw ≡ e.cw))
        c.entries
unfolding check_and_store_ecmcache
check_and_store_ecmcache-Answers ctimeout now er grp c h =
    let t = oldest ctimeout now in
    elim (Option-cases (scan t (same_ecm er grp) c.entries).1) [
      | inl n ↦ absurd (h (rw (n, check_and_store_ecmcache) refl))
      | inr (e, s) ↦
          rw (s, check_and_store_ecmcache)
            (Exists-map _ _ c.entries
              (λ x k. (same_ecm-Answers t er grp x k.1 k.2, rw k.0 refl, rw k.0 refl))
              (scan-Found t (same_ecm er grp) c.entries e s))
    ]

-- What `check_cwcache1` says is found comes from an entry with an answer for the same caid and MD5
-- sum, in time, and of one of the client's groups unless the client has none.
pub check_cwcache1-Answers :
    (ctimeout now : ℕ) (er : Request) (grp : ℕ) (c : Cache)
    → (check_cwcache1 ctimeout now er grp c).2 ≡ true
    → Exists
        (λ e.
          Answers (oldest ctimeout now) er grp e
          × (e.rc ≡ e_found)
          × ((check_cwcache1 ctimeout now er grp c).1.cw ≡ e.cw))
        c.entries
unfolding check_cwcache1
check_cwcache1-Answers ctimeout now er grp c h =
    let t = oldest ctimeout now in
    let test : Ecm → Bool = λ e. (e.rc == e_found) && same_ecm er grp e in
    elim (Option-cases (scan t test c.entries).1) [
      | inl n ↦ absurd (let no : false ≡ true = rw (n, check_cwcache1) at h in cc)
      | inr (e, s) ↦
          rw (s, check_cwcache1)
            (Exists-map _ _ c.entries
              (λ x k. (
                same_ecm-Answers t er grp x (ground (arith, k.1)) k.2,
                ground (arith, k.1),
                rw k.0 refl,
              ))
              (scan-Found t test c.entries e s))
    ]

-- A request finds an answer where there is one for its caid and MD5 sum, in time, and of one of the
-- client's groups unless the client has none.
pub check_cwcache1-Finds :
    (ctimeout now : ℕ) (er : Request) (grp : ℕ) (c : Cache)
    → Exists (λ e. Answers (oldest ctimeout now) er grp e × (e.rc ≡ e_found)) c.entries
    → (check_cwcache1 ctimeout now er grp c).2 ≡ true
unfolding check_cwcache1
check_cwcache1-Finds ctimeout now er grp c h =
    let t = oldest ctimeout now in
    let test : Ecm → Bool = λ e. (e.rc == e_found) && same_ecm er grp e in
    let found = scan-Finds t test c.entries (
      Exists-map _ _ c.entries
        (λ x k. (ground (arith, Answers-same_ecm t er grp x k.0, k.1), k.0.time)) h) in
    rw (found.1, check_cwcache1) refl

-- Once the answer to a request is stored through its entry, which had a higher code, within the
-- 60 seconds after the request came, every request for the same ECM and from one of the groups
-- finds an answer for the next 60 seconds.
pub check_cwcache1-store_cw_in_cache :
    (now : ℕ) (er : Request) (grp a : ℕ) (e : Ecm) (c d : Cache)
    → er.ecmcacheptr ≡ some a
    → entry_at a c.entries ≡ some e
    → e.rc ≢ e_found
    → now < er.tps + cache_timeout
    → store_cw_in_cache now er grp e_found c ≡ some d
    → (ctimeout later : ℕ) (q : Request) (mine : ℕ) → later ≤ now + cache_timeout
    → q.caid ≡ er.caid
    → q.ecmd5 ≡ er.ecmd5
    → (mine ≡ 0) ⊎ (bit_and mine grp ≢ 0)
    → (check_cwcache1 ctimeout later q mine d).2 ≡ true
unfolding store_cw_in_cache
check_cwcache1-store_cw_in_cache now er grp a e c d p f n t s ctimeout later q mine l ec em eg =
    let fresh : leb (er.tps + cache_timeout) now ≡ false = ground arith in
    let high : leb e.rc e_found ≡ false = ground arith in
    let v = overwrite now er grp e_found e in
    let stored : some (record c { entries = put_at a v c.entries }) ≡ some d =
      rw (fresh, p, f, high) at s in
    let same : record c { entries = put_at a v c.entries } ≡ d = cc in
    check_cwcache1-Finds ctimeout later q mine d (
      rw (← same) (
        Exists-map _ _ (put_at a v c.entries)
          (λ x k. rw k (record { caid = cc; ecmd5 = cc; grp = eg; time = ground arith }, refl))
          (put_at-Has a e v c.entries f)))
