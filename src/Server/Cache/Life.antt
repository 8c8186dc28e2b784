-- ===== src/Server/Cache/Life.antt =====
-- About the pointers into the cache: how long the entry that they point to is there.
use oscam_vdr.Base.{
  ℕ, ◌+◌, ◌≤◌, ◌<◌, ◌≡◌, refl, Bool, some, leb, Exists, ◌&&◌, ◌==◌, Bool-cases, Option-cases, ◌⊎◌,
  inl, inr, arith,
}
use oscam_vdr.Server.{Request, e_found, cache_timeout}
use oscam_vdr.Server.Cache.{
  Ecm, Cache, oldest, same_ecm, scan, check_and_store_ecmcache, check_cwcache1, entry_at, put_at,
  overwrite, store_cw_in_cache,
}
use oscam_vdr.Server.Cache.Scan.{scan-Keeps, put_at-Keeps}

-- One call of some thread at a time. `cfg.ctimeout` may change between the calls.
pub data Step : ℕ → Cache → Cache → Type 0 where
  asked :
      (ctimeout now : ℕ) (er : Request) (grp : ℕ) (c : Cache)
      → Step now c (check_and_store_ecmcache ctimeout now er grp c).0
  looked :
      (ctimeout now : ℕ) (er : Request) (grp : ℕ) (c : Cache)
      → Step now c (check_cwcache1 ctimeout now er grp c).0
  stored :
      (now : ℕ) (er : Request) (grp rc : ℕ) (c d : Cache)
      → store_cw_in_cache now er grp rc c ≡ some d
      → Step now c d

-- Calls one after the other, from a time to a time.
pub data Steps : ℕ → ℕ → Cache → Cache → Type 0 where
  none_yet : (t : ℕ) (c : Cache) → Steps t t c c
  then_step : (t u v : ℕ) (c d e : Cache) → Steps t u c d → u ≤ v → Step v d e → Steps t v c e

asked-Keeps :
    (P : Ecm → Type 0) (ctimeout now : ℕ) (er : Request) (grp : ℕ) (c : Cache)
    → ((e : Ecm) → P e → oldest ctimeout now ≤ e.time)
    → Exists P c.entries
    → Exists P (check_and_store_ecmcache ctimeout now er grp c).0.entries
unfolding check_and_store_ecmcache
asked-Keeps P ctimeout now er grp c f h =
    let t = oldest ctimeout now in
    let kept = scan-Keeps P t (same_ecm er grp) c.entries f h in
    elim (Option-cases (scan t (same_ecm er grp) c.entries).1) [
      | inl n ↦ rw (n, check_and_store_ecmcache) (inr kept)
      | inr (e, s) ↦ rw (s, check_and_store_ecmcache) kept
    ]

looked-Keeps :
    (P : Ecm → Type 0) (ctimeout now : ℕ) (er : Request) (grp : ℕ) (c : Cache)
    → ((e : Ecm) → P e → oldest ctimeout now ≤ e.time)
    → Exists P c.entries
    → Exists P (check_cwcache1 ctimeout now er grp c).0.entries
unfolding check_cwcache1
looked-Keeps P ctimeout now er grp c f h =
    let t = oldest ctimeout now in
    let test : Ecm → Bool = λ e. (e.rc == e_found) && same_ecm er grp e in
    let kept = scan-Keeps P t test c.entries f h in
    elim (Option-cases (scan t test c.entries).1) [
      | inl n ↦ rw (n, check_cwcache1) kept
      | inr (e, s) ↦ rw (s, check_cwcache1) kept
    ]

-- A write through a pointer: nothing changes, or the entry that had a higher code is replaced.
pub store_cw_in_cache-cases :
    (now : ℕ) (er : Request) (grp rc : ℕ) (c d : Cache)
    → store_cw_in_cache now er grp rc c ≡ some d
    → (c ≡ d)
      ⊎ ((a : ℕ) × (e : Ecm) × (entry_at a c.entries ≡ some e)
          × (rc < e.rc)
          × (record c { entries = put_at a (overwrite now er grp rc e) c.entries } ≡ d))
unfolding store_cw_in_cache
store_cw_in_cache-cases now er grp rc c d s = elim (Bool-cases (leb (er.tps + cache_timeout) now)) [
  | inl old ↦ inl (let e : some c ≡ some d = rw old at s in cc)
  | inr new ↦ elim (Option-cases er.ecmcacheptr) [
    | inl n ↦ inl (let e : some c ≡ some d = rw (new, n) at s in cc)
    | inr (a, p) ↦ elim (Option-cases (entry_at a c.entries)) [
      | inl n ↦ absurd (let e = rw (new, p, n) at s in cc)
      | inr (e, f) ↦ elim (Bool-cases (leb e.rc rc)) [
        | inl h ↦ inl (let e : some c ≡ some d = rw (new, p, f, h) at s in cc)
        | inr h ↦
            let q : some (record c { entries = put_at a (overwrite now er grp rc e) c.entries })
                ≡ some d =
              rw (new, p, f, h) at s in
            inr (a, e, f, ground arith, cc)
      ]
    ]
  ]
]

stored-Keeps :
    (P : Ecm → Type 0) (now : ℕ) (er : Request) (grp rc : ℕ) (c d : Cache)
    → store_cw_in_cache now er grp rc c ≡ some d
    → ((e : Ecm) → rc < e.rc → P e → P (overwrite now er grp rc e))
    → Exists P c.entries
    → Exists P d.entries
stored-Keeps P now er grp rc c d s f h = elim (store_cw_in_cache-cases now er grp rc c d s) [
  | inl same ↦ rw same at h
  | inr (a, e, found, low, same) ↦
      rw (← same) (put_at-Keeps P a e (overwrite now er grp rc e) c.entries found (f e low) h)
]

-- A step keeps a property of some entry that holds only in time and that a write to the entry
-- keeps.
pub Step-Keeps :
    (P : Ecm → Type 0) (now : ℕ) (c d : Cache)
    → Step now c d
    → ((e : Ecm) → P e → now ≤ e.time + cache_timeout)
    → ((er : Request) (grp rc : ℕ) (e : Ecm) → rc < e.rc → P e → P (overwrite now er grp rc e))
    → Exists P c.entries
    → Exists P d.entries
Step-Keeps P _ _ _ (asked ctimeout now er grp c) f g h =
    asked-Keeps P ctimeout now er grp c (λ e p. omega (arith, f e p)) h
Step-Keeps P _ _ _ (looked ctimeout now er grp c) f g h =
    looked-Keeps P ctimeout now er grp c (λ e p. omega (arith, f e p)) h
Step-Keeps P _ _ _ (stored now er grp rc c d s) f g h =
    stored-Keeps P now er grp rc c d s (g er grp rc) h

-- The entry at an address, of a time at least.
abbrev pub Live : ℕ → ℕ → Cache → Type 0
Live a t c = Exists (λ e. (e.address ≡ a) × (t ≤ e.time)) c.entries

Steps-le : (t u : ℕ) (c d : Cache) → Steps t u c d → t ≤ u
Steps-le _ _ _ _ (none_yet t c) = omega arith
Steps-le _ _ _ _ (then_step t u v c d e p q s) = omega (arith, Steps-le t u c d p)

-- An entry is there for 60 seconds from its time on, whatever the threads call.
pub Steps-Live :
    (a t u : ℕ) (c d : Cache) → Steps t u c d → u ≤ t + cache_timeout → Live a t c → Live a t d
Steps-Live a _ _ _ _ (none_yet t c) l h = h
Steps-Live a _ _ _ _ (then_step t u v c d e p q s) l h =
    Step-Keeps (λ x. (x.address ≡ a) × (t ≤ x.time)) v d e s (λ x k. omega (arith, k.1))
      (λ er grp rc x low k. (k.0, omega (arith, Steps-le t u c d p)))
      (Steps-Live a t u c d p (omega arith) h)

-- An entry with an answer is there, unchanged, for 60 seconds from the answer's time on, whatever
-- the threads call.
pub Steps-answered :
    (x : Ecm) (t u : ℕ) (c d : Cache)
    → Steps t u c d
    → x.rc ≡ e_found
    → u ≤ x.time + cache_timeout
    → Exists (λ e. e ≡ x) c.entries
    → Exists (λ e. e ≡ x) d.entries
Steps-answered x _ _ _ _ (none_yet t c) r l h = h
Steps-answered x _ _ _ _ (then_step t u v c d e p q s) r l h =
    Step-Keeps (λ y. y ≡ x) v d e s (λ y k. rw k l)
      (λ er grp rc y low k. absurd (let z : y.rc ≡ x.rc = rw k refl in omega arith))
      (Steps-answered x t u c d p r (omega arith) h)
