-- ===== src/Server/RateLimit/Granted.antt =====
-- About a service that the rate limit has let through.
use oscam_vdr.Base.{
  ℕ, ◌+◌, ◌≤◌, ◌≡◌, refl, sym, ◌∙◌, true, false, none, some, List, [], ◌∷◌, ◌==◌, Bool-cases,
  Option-cases, Exists, All, inl, inr, arith,
}
use oscam_vdr.Server.RateLimit.{Slot, use_service, is_free, use_space, limit_ecm, limit_all}

module _ (srvid since : ℕ) where
  -- A place that has the service since a time or later.
  abbrev pub Keeps : Slot → Type 0
  Keeps s = (s.srvid ≡ srvid) × ((last : ℕ) × (s.last ≡ some last) × (since ≤ last))

  use_service-Kept :
      (now x : ℕ) (slots d : List Slot)
      → since ≤ now
      → Exists Keeps slots
      → use_service now x slots ≡ some d
      → Exists Keeps d
  unfolding use_service
  use_service-Kept now x [] d le k h = absurd k
  use_service-Kept now x (s ∷ slots) d le k h = elim (Bool-cases (s.srvid == x)) [
    | inl y ↦
        let q : some (record { last = some now; srvid = x } ∷ slots) ≡ some d =
          rw (y, use_service) at h in
        let e : (record { last = some now; srvid = x } ∷ slots) ≡ d = cc in
        rw (sym e)
          (elim k [ inl (same, rest) ↦ inl (ground arith, (now, refl, le)) | inr k' ↦ inr k' ])
    | inr n ↦ elim (Option-cases (use_service now x slots)) [
      | inl f ↦ absurd (let z : none ≡ some d = rw (n, f, use_service) at h in cc)
      | inr (changed, f) ↦
          let q : some (s ∷ changed) ≡ some d = rw (n, f, use_service) at h in
          let e : (s ∷ changed) ≡ d = cc in
          rw (sym e)
            (elim k [ inl a ↦ inl a | inr k' ↦ inr (use_service-Kept now x slots changed le k' f) ])
    ]
  ]

  -- A place that is kept is not free within the seconds.
  kept_place :
      (now seconds : ℕ) (s : Slot)
      → now ≤ since + seconds
      → Keeps s
      → is_free now seconds s.last ≡ false
  kept_place now seconds s le (same, (last, e, le')) = rw e (ground arith)

  use_space-Kept :
      (now seconds x : ℕ) (slots d : List Slot)
      → now ≤ since + seconds
      → Exists Keeps slots
      → use_space now seconds x slots ≡ some d
      → Exists Keeps d
  unfolding use_space
  use_space-Kept now seconds x [] d le k h = absurd k
  use_space-Kept now seconds x (s ∷ slots) d le k h =
      elim (Bool-cases (is_free now seconds s.last)) [
        | inl y ↦
            let q : some (record { last = some now; srvid = x } ∷ slots) ≡ some d =
              rw (y, use_space) at h in
            let e : (record { last = some now; srvid = x } ∷ slots) ≡ d = cc in
            rw (sym e) (elim k [
              | inl a ↦ absurd (let z : true ≡ false = sym y ∙ kept_place now seconds s le a in cc)
              | inr k' ↦ inr k'
            ])
        | inr n ↦ elim (Option-cases (use_space now seconds x slots)) [
          | inl f ↦ absurd (let z : none ≡ some d = rw (n, f, use_space) at h in cc)
          | inr (changed, f) ↦
              let q : some (s ∷ changed) ≡ some d = rw (n, f, use_space) at h in
              let e : (s ∷ changed) ≡ d = cc in
              rw (sym e) (elim k [
                | inl a ↦ inl a
                | inr k' ↦ inr (use_space-Kept now seconds x slots changed le k' f)
              ])
        ]
      ]

  limit_ecm-Kept :
      (now seconds x : ℕ) (slots d : List Slot)
      → since ≤ now
      → now ≤ since + seconds
      → Exists Keeps slots
      → limit_ecm now seconds x slots ≡ some d
      → Exists Keeps d
  unfolding limit_ecm
  limit_ecm-Kept now seconds x slots d ge le k h = elim (Option-cases (use_service now x slots)) [
    | inl f ↦ use_space-Kept now seconds x slots d le k (rw (f, limit_ecm) at h)
    | inr (changed, f) ↦
        let q : some changed ≡ some d = rw (f, limit_ecm) at h in
        use_service-Kept now x slots d ge k (f ∙ q)
  ]

  limit_all-Kept :
      (seconds : ℕ) (rs : List (ℕ × ℕ)) (slots : List Slot)
      → All (λ r. (since ≤ r.0) × (r.0 ≤ since + seconds)) rs
      → Exists Keeps slots
      → Exists Keeps (limit_all seconds rs slots)
  unfolding limit_all
  limit_all-Kept seconds [] slots h k = k
  limit_all-Kept seconds (r ∷ rs) slots h k =
      elim (Option-cases (limit_ecm r.0 seconds r.1 slots)) [
        | inl f ↦ rw (f, limit_all) (limit_all-Kept seconds rs slots h.1 k)
        | inr (d, f) ↦
            rw (f, limit_all)
              (limit_all-Kept seconds rs d h.1
                (limit_ecm-Kept r.0 seconds r.1 slots d h.0.0 h.0.1 k f))
      ]

  use_service-starts :
      (slots d : List Slot) → use_service since srvid slots ≡ some d → Exists Keeps d
  unfolding use_service
  use_service-starts [] d h = absurd (let z : none ≡ some d = h in cc)
  use_service-starts (s ∷ slots) d h = elim (Bool-cases (s.srvid == srvid)) [
    | inl y ↦
        let q : some (record { last = some since; srvid = srvid } ∷ slots) ≡ some d =
          rw (y, use_service) at h in
        let e : (record { last = some since; srvid = srvid } ∷ slots) ≡ d = cc in
        rw (sym e) (inl (refl, (since, refl, omega arith)))
    | inr n ↦ elim (Option-cases (use_service since srvid slots)) [
      | inl f ↦ absurd (let z : none ≡ some d = rw (n, f, use_service) at h in cc)
      | inr (changed, f) ↦
          let q : some (s ∷ changed) ≡ some d = rw (n, f, use_service) at h in
          let e : (s ∷ changed) ≡ d = cc in rw (sym e) (inr (use_service-starts slots changed f))
    ]
  ]

  use_space-starts :
      (seconds : ℕ) (slots d : List Slot)
      → use_space since seconds srvid slots ≡ some d
      → Exists Keeps d
  unfolding use_space
  use_space-starts seconds [] d h = absurd (let z : none ≡ some d = h in cc)
  use_space-starts seconds (s ∷ slots) d h = elim (Bool-cases (is_free since seconds s.last)) [
    | inl y ↦
        let q : some (record { last = some since; srvid = srvid } ∷ slots) ≡ some d =
          rw (y, use_space) at h in
        let e : (record { last = some since; srvid = srvid } ∷ slots) ≡ d = cc in
        rw (sym e) (inl (refl, (since, refl, omega arith)))
    | inr n ↦ elim (Option-cases (use_space since seconds srvid slots)) [
      | inl f ↦ absurd (let z : none ≡ some d = rw (n, f, use_space) at h in cc)
      | inr (changed, f) ↦
          let q : some (s ∷ changed) ≡ some d = rw (n, f, use_space) at h in
          let e : (s ∷ changed) ≡ d = cc in
          rw (sym e) (inr (use_space-starts seconds slots changed f))
    ]
  ]

  use_service_found :
      (now : ℕ) (slots : List Slot)
      → Exists Keeps slots
      → (d : List Slot) × (use_service now srvid slots ≡ some d)
  unfolding use_service
  use_service_found now [] k = absurd k
  use_service_found now (s ∷ slots) k = elim (Bool-cases (s.srvid == srvid)) [
    | inl y ↦ (record { last = some now; srvid = srvid } ∷ slots, rw (y, use_service) refl)
    | inr n ↦ elim k [
      | inl a ↦ absurd (let z = a.0 in ground arith)
      | inr k' ↦ let (d, f) = use_service_found now slots k' in (s ∷ d, rw (n, f, use_service) refl)
    ]
  ]

  -- A service that is let through keeps its place for the seconds of the limit, whatever is asked
  -- for in them: the next request for it is let through too.
  pub limit_ecm-limit_ecm :
      (seconds : ℕ) (slots d : List Slot)
      → limit_ecm since seconds srvid slots ≡ some d
      → (rs : List (ℕ × ℕ)) → All (λ r. (since ≤ r.0) × (r.0 ≤ since + seconds)) rs
      → (now : ℕ)
      → (e : List Slot) × (limit_ecm now seconds srvid (limit_all seconds rs d) ≡ some e)
  unfolding limit_ecm
  limit_ecm-limit_ecm seconds slots d h rs times now =
      let k : Exists Keeps d = elim (Option-cases (use_service since srvid slots)) [
        | inl f ↦ use_space-starts seconds slots d (rw (f, limit_ecm) at h)
        | inr (changed, f) ↦
            let q : some changed ≡ some d = rw (f, limit_ecm) at h in
            use_service-starts slots d (f ∙ q)
      ] in
      let (e, f) =
        use_service_found now (limit_all seconds rs d) (limit_all-Kept seconds rs d times k) in
      (e, rw (f, limit_ecm) refl)
