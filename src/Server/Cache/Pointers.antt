-- ===== src/Server/Cache/Pointers.antt =====
-- About the entries of the cache, and about a request's pointer to the entry that it has made.
use oscam_vdr.Base.{
  ℕ, ◌+◌, ◌≤◌, ◌<◌, ◌≡◌, refl, Bool, true, some, List, [], ◌∷◌, leb, ◌∙◌, Exists, All, ◌&&◌, ◌==◌,
  Bool-cases, Option-cases, inl, inr, arith, if◌then◌else◌,
}
use oscam_vdr.Server.{Request, e_found, e_cache1, e_99, e_unhandled, cache_timeout}
use oscam_vdr.Server.Cache.{
  Ecm, Cache, oldest, same_ecm, scan, check_and_store_ecmcache, check_cwcache1, entry_at, overwrite,
  store_cw_in_cache,
}
use oscam_vdr.Server.Cache.Scan.{Exists-map, scan-Found, scan-All, entry_at-Finds, put_at-All}
use oscam_vdr.Server.Cache.Life.{
  Step, asked, looked, stored, Steps, Live, Steps-Live, store_cw_in_cache-cases,
}

-- Every entry has an address that was given, and the code `E_99` at most.
abbrev pub IsCache : Cache → Type 0
IsCache c = All (λ e. (e.address < c.next_address) × (e.rc ≤ e_99)) c.entries

entry_at-All :
    (P : Ecm → Type 0) (a : ℕ) (es : List Ecm) (e : Ecm) → All P es → entry_at a es ≡ some e → P e
unfolding entry_at
entry_at-All P a [] e h f = absurd (ground arith)
entry_at-All P a (x ∷ xs) e h f = elim (Bool-cases (x.address == a)) [
  | inl q ↦ let found : some x ≡ some e = rw q at f in let same : x ≡ e = cc in rw (← same) h.0
  | inr q ↦ entry_at-All P a xs e h.1 (rw q at f)
]

All-map : (P Q : Ecm → Type 0) (es : List Ecm) → ((e : Ecm) → P e → Q e) → All P es → All Q es
All-map P Q [] f h = h
All-map P Q (e ∷ es) f h = (f e h.0, All-map P Q es f h.1)

asked-IsCache :
    (ctimeout now : ℕ) (er : Request) (grp : ℕ) (c : Cache)
    → IsCache c
    → IsCache (check_and_store_ecmcache ctimeout now er grp c).0
unfolding check_and_store_ecmcache
asked-IsCache ctimeout now er grp c h =
    let t = oldest ctimeout now in
    let kept = scan-All _ t (same_ecm er grp) c.entries h in
    elim (Option-cases (scan t (same_ecm er grp) c.entries).1) [
      | inl n ↦
          rw (n, check_and_store_ecmcache)
            (
              (omega arith, omega arith),
              All-map _ _ (scan t (same_ecm er grp) c.entries).0 (λ e k. (omega (arith, k.0), k.1))
                  kept,
            )
      | inr (e, s) ↦ rw (s, check_and_store_ecmcache) kept
    ]

looked-IsCache :
    (ctimeout now : ℕ) (er : Request) (grp : ℕ) (c : Cache)
    → IsCache c
    → IsCache (check_cwcache1 ctimeout now er grp c).0
unfolding check_cwcache1
looked-IsCache ctimeout now er grp c h =
    let t = oldest ctimeout now in
    let test : Ecm → Bool = λ e. (e.rc == e_found) && same_ecm er grp e in
    let kept = scan-All _ t test c.entries h in
    elim (Option-cases (scan t test c.entries).1) [
      | inl n ↦ rw (n, check_cwcache1) kept
      | inr (e, s) ↦ rw (s, check_cwcache1) kept
    ]

-- Every call keeps the invariant.
pub Step-IsCache : (now : ℕ) (c d : Cache) → Step now c d → IsCache c → IsCache d
Step-IsCache _ _ _ (asked ctimeout now er grp c) h = asked-IsCache ctimeout now er grp c h
Step-IsCache _ _ _ (looked ctimeout now er grp c) h = looked-IsCache ctimeout now er grp c h
Step-IsCache _ _ _ (stored now er grp rc c d s) h =
    elim (store_cw_in_cache-cases now er grp rc c d s) [
      | inl same ↦ rw same at h
      | inr (a, e, found, low, same) ↦
          let k = entry_at-All _ a c.entries e h found in
          rw (← same)
            (put_at-All _ a (overwrite now er grp rc e) c.entries (k.0, omega (arith, k.1)) h)
    ]

All-Exists :
    {R : Type 0} (P Q : Ecm → Type 0) (es : List Ecm)
    → All P es
    → Exists Q es
    → ((e : Ecm) → P e → Q e → R)
    → R
All-Exists P Q [] h s f = elim s [ ]
All-Exists P Q (e ∷ es) h s f = elim s [ inl q ↦ f e h.0 q | inr r ↦ All-Exists P Q es h.1 r f ]

-- A request that was told `E_UNHANDLED` has made an entry, which its pointer is to.
asked-Live :
    (ctimeout now : ℕ) (er : Request) (grp : ℕ) (c : Cache)
    → IsCache c
    → (check_and_store_ecmcache ctimeout now er grp c).2 ≡ e_unhandled
    → ((check_and_store_ecmcache ctimeout now er grp c).1.ecmcacheptr ≡ some c.next_address)
      × Live c.next_address now (check_and_store_ecmcache ctimeout now er grp c).0
unfolding check_and_store_ecmcache
asked-Live ctimeout now er grp c h u =
    let t = oldest ctimeout now in
    elim (Option-cases (scan t (same_ecm er grp) c.entries).1) [
      | inl n ↦ rw (n, check_and_store_ecmcache) (refl, inl (refl, omega arith))
      | inr (e, s) ↦
          let code : (if e.rc == e_found then e_cache1 else e.rc) ≡ e_unhandled =
            rw (s, check_and_store_ecmcache) at u in
          absurd (
            All-Exists _ _ c.entries h (scan-Found t (same_ecm er grp) c.entries e s)
              (λ x k q. let r : x.rc ≡ e.rc = rw q.0 refl in ground arith))
    ]

pub store_cw_in_cache_late :
    (now : ℕ) (er : Request) (grp rc : ℕ) (c : Cache)
    → leb (er.tps + cache_timeout) now ≡ true
    → store_cw_in_cache now er grp rc c ≡ some c
unfolding store_cw_in_cache
store_cw_in_cache_late now er grp rc c old = rw old refl

pub store_cw_in_cache-Live :
    (now : ℕ) (er : Request) (grp rc a t : ℕ) (c : Cache)
    → er.ecmcacheptr ≡ some a
    → Live a t c
    → (d : Cache) × (store_cw_in_cache now er grp rc c ≡ some d)
unfolding store_cw_in_cache
store_cw_in_cache-Live now er grp rc a t c p h =
    let f = entry_at-Finds a c.entries (Exists-map _ _ c.entries (λ e k. k.0) h) in
    elim (Bool-cases (leb (er.tps + cache_timeout) now)) [
      | inl old ↦ rw old (c, refl)
      | inr new ↦ rw (new, p, f.1) (_, refl)
    ]

-- A request that was told `E_UNHANDLED`, and every copy of it, never writes through a pointer to
-- an entry that was freed: at any later time, whatever the threads have called since, its answer
-- can be stored.
pub store_cw_in_cache-asked :
    (ctimeout now : ℕ) (er : Request) (grp : ℕ) (c : Cache)
    → IsCache c
    → er.tps ≤ now
    → (check_and_store_ecmcache ctimeout now er grp c).2 ≡ e_unhandled
    → (later : ℕ) (d : Cache) → Steps now later (check_and_store_ecmcache ctimeout now er grp c).0 d
    → (copy : Request)
    → copy.ecmcacheptr ≡ (check_and_store_ecmcache ctimeout now er grp c).1.ecmcacheptr
    → copy.tps ≡ er.tps
    → (its rc : ℕ) → (d' : Cache) × (store_cw_in_cache later copy its rc d ≡ some d')
store_cw_in_cache-asked ctimeout now er grp c h b u later d s copy p q its rc =
    let (own, live) = asked-Live ctimeout now er grp c h u in
    elim (Bool-cases (leb (copy.tps + cache_timeout) later)) [
      | inl old ↦ (d, store_cw_in_cache_late later copy its rc d old)
      | inr new ↦
          store_cw_in_cache-Live later copy its rc c.next_address now d (p ∙ own)
            (Steps-Live c.next_address now later _ d s (ground arith) live)
    ]
