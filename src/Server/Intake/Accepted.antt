-- ===== src/Server/Intake/Accepted.antt =====
-- About a request that no check refuses.
use oscam_vdr.Base.{
  ℕ, zero, suc, ◌+◌, ◌*◌, ◌≤◌, ◌≡◌, refl, sym, ap, ◌∙◌, true, false, Option, List, ◌==◌, ltb, leb,
  bit_and, bit_or, Bool-cases, Option-cases, ◌⊎◌, inl, inr, arith,
}
use oscam_vdr.Convert.Bytes.{at}
use oscam_vdr.Access.{SidTab, Ftab, EcmRequest}
use oscam_vdr.Server.{e_unhandled}
use oscam_vdr.Server.Intake.{
  Checked, check_outside, check_exit, check_done, ends_client, chk_bcaid, account_code, sleep_code,
  judge_request, ecm_length, check_case, check_loop, check_request,
}
use oscam_vdr.Server.Intake.Corrections.{User, NcdPorts, find_caid, complete}
use oscam_vdr.Server.Intake.Same.{
  chk_ufilters-Same, chk_sfilter-Same, chk_bcaid-Same, find_caid-Same, complete-Same, Same-trans,
  Same,
}

pub Checked-cases :
    (c : Checked)
    → (c ≡ check_outside) ⊎ ((c ≡ check_exit) ⊎ ((r : EcmRequest × ℕ) × (c ≡ check_done r)))
Checked-cases check_outside = inl refl
Checked-cases check_exit = inr (inl refl)
Checked-cases (check_done r) = inr (inr (r, refl))

account_code-disabled :
    (now curtime : ℕ) (user : User) (er : EcmRequest)
    → leb e_unhandled (account_code now curtime user er e_unhandled) ≡ true
    → user.disabled ≡ false
unfolding account_code
account_code-disabled now curtime user er h = elim (Bool-cases user.disabled) [
  | inr n ↦ n
  | inl y ↦ absurd (let z = rw (y, account_code) at h in ground arith)
]

module _ (sidtab : List SidTab) (ports : Option (List Ftab)) (user : User) where
  -- A round that the loop goes on behind.
  check_loop-goes :
      (left j : ℕ) (er : EcmRequest) (rc : ℕ)
      → (check_loop sidtab ports user (suc left) j er rc).1 ≡ e_unhandled
      → (leb e_unhandled rc ≡ true)
        × (check_loop sidtab ports user (suc left) j er rc ≡ (
            let r = check_case sidtab ports user j er in
            check_loop sidtab ports user left (suc j) r.0 r.1))
  unfolding check_loop
  check_loop-goes left j er rc h = elim (Bool-cases (leb e_unhandled rc)) [
    | inl e ↦ (e, rw (e, check_loop) refl)
    | inr e ↦ absurd (let z : rc ≡ e_unhandled = rw (e, check_loop) at h in ground arith)
  ]

  check_case-Same :
      (j : ℕ) (er : EcmRequest) → ltb j 5 ≡ true → Same er (check_case sidtab ports user j er).0
  unfolding check_case
  check_case-Same j er h = elim (Bool-cases (j == 0)) [
    | inl a ↦ rw (a, check_case) (refl, refl)
    | inr a ↦ elim (Bool-cases (j == 1)) [
      | inl b ↦
          rw (a, b, check_case)
            (elim (Bool-cases (chk_bcaid er user.ctab).0) [
              | inl y ↦ rw y (chk_bcaid-Same er user.ctab)
              | inr n ↦ rw n (refl, refl)
            ])
      | inr b ↦ elim (Bool-cases (j == 2)) [
        | inl c ↦ rw (a, b, c, check_case) (refl, refl)
        | inr c ↦ elim (Bool-cases (j == 3)) [
          | inl d ↦ rw (a, b, c, d, check_case) (chk_ufilters-Same user.client er)
          | inr d ↦
              let e : (j == 4) ≡ true = ground arith in
              rw (a, b, c, d, e, check_case) (chk_sfilter-Same user.client er ports)
        ]
      ]
    ]
  ]

  -- The rounds before the last, one after the other.
  check_loop-early :
      (left j : ℕ) (er : EcmRequest) (rc : ℕ)
      → j + left ≡ 5
      → (check_loop sidtab ports user (suc left) j er rc).1 ≡ e_unhandled
      → (d : EcmRequest) × (last : ℕ) × Same er d
        × (check_loop sidtab ports user (suc left) j er rc
            ≡ check_loop sidtab ports user 1 5 d last)
  check_loop-early zero j er rc e h =
      let q : j ≡ 5 = omega arith in
      (er, rc, (refl, refl), ap (λ t. check_loop sidtab ports user 1 t er rc) q)
  check_loop-early (suc left) j er rc e h =
      let r = check_case sidtab ports user j er in
      let (go, open_up) = check_loop-goes (suc left) j er rc h in
      let (d, last, same, rest) =
        check_loop-early left (suc j) r.0 r.1 (omega arith) (sym (ap (λ t. t.1) open_up) ∙ h) in
      (d, last, Same-trans er r.0 d (check_case-Same j er (ground arith)) same, open_up ∙ rest)

  last_round :
      (d : EcmRequest) (last : ℕ)
      → (check_loop sidtab ports user 1 5 d last).1 ≡ e_unhandled
      → ((check_loop sidtab ports user 1 5 d last).0.l ≡ ecm_length d)
        × (ecm_length d ≤ d.l)
        × ((check_loop sidtab ports user 1 5 d last).0.ecm ≡ d.ecm)
  unfolding check_loop check_case
  last_round d last h =
      let (go, open_up) = check_loop-goes 0 5 d last h in
      elim (Bool-cases (ltb (ecm_length d) d.l)) [
        | inl e ↦ rw (go, e, check_loop, check_case) (refl, ground arith, refl)
        | inr e ↦ elim (Bool-cases (d.l == ecm_length d)) [
          | inl f ↦ rw (go, e, check_loop, check_case) (ground arith, ground arith, refl)
          | inr f ↦ absurd (let z = rw (go, e, f, check_loop, check_case) at h in omega arith)
        ]
      ]

  first_round :
      (er : EcmRequest) (rc : ℕ)
      → (check_loop sidtab ports user 6 0 er rc).1 ≡ e_unhandled
      → user.dup ≡ false
  unfolding check_case
  first_round er rc h =
      let r = check_case sidtab ports user 0 er in
      let (go, open_up) = check_loop-goes 5 0 er rc h in
      let (go1, open_up1) = check_loop-goes 4 1 r.0 r.1 (sym (ap (λ t. t.1) open_up) ∙ h) in
      elim (Bool-cases user.dup) [
        | inr n ↦ n
        | inl y ↦ absurd (let z = rw (y, check_case) at go1 in ground arith)
      ]

  judge_request-Accepted :
      (now curtime lastswitch : ℕ) (er : EcmRequest)
      → (judge_request sidtab ports user now curtime lastswitch er).1 ≡ e_unhandled
      → ((judge_request sidtab ports user now curtime lastswitch er).0.l
          ≡ ecm_length (judge_request sidtab ports user now curtime lastswitch er).0)
        × ((judge_request sidtab ports user now curtime lastswitch er).0.l ≤ er.l)
        × ((judge_request sidtab ports user now curtime lastswitch er).0.ecm ≡ er.ecm)
        × (user.disabled ≡ false)
        × (user.dup ≡ false)
  unfolding judge_request
  judge_request-Accepted now curtime lastswitch er h =
      let er1 = record er { ocaid = er.caid } in
      let rc = account_code now curtime user er e_unhandled in
      let sleep = sleep_code now lastswitch user rc in
      elim (Bool-cases (leb e_unhandled rc)) [
        | inr n ↦ absurd (let z : rc ≡ e_unhandled = rw (n, judge_request) at h in ground arith)
        | inl y ↦
            let g = rw (y, judge_request) at h in
            let (d, last, same, rest) = check_loop-early 5 0 er1 sleep (omega arith) g in
            let (l, le, ecm) = last_round d last (sym (ap (λ t. t.1) rest) ∙ g) in
            rw (y, judge_request, rest)
              (
                l ∙ ap (λ (b : List ℕ). bit_or (bit_and (at b 1) 0xf * 256) (at b 2) + 3) (sym ecm),
                omega (arith, l, le, same.1),
                ecm ∙ same.0,
                account_code-disabled now curtime user er y,
                first_round er1 sleep g,
              )
      ]

  -- A request that is not refused has exactly the length that its section says, no more than was
  -- received, and the bytes that were received; its client is neither disabled nor a duplicate.
  pub check_request-Accepted :
      (len4caid : List ℕ) (ncd : NcdPorts) (now curtime lastswitch : ℕ) (er d : EcmRequest)
      → check_request len4caid sidtab ports ncd user now curtime lastswitch er
        ≡ check_done (d, e_unhandled)
      → (d.l ≡ ecm_length d)
        × (d.l ≤ er.l)
        × (d.ecm ≡ er.ecm)
        × (user.disabled ≡ false)
        × (user.dup ≡ false)
  unfolding check_request
  check_request-Accepted len4caid ncd now curtime lastswitch er d h =
      elim (Option-cases (find_caid len4caid er)) [
        | inl f ↦
            absurd (
              let z : check_outside ≡ check_done (d, e_unhandled) = rw (f, check_request) at h in
              cc)
        | inr (er1, f) ↦ elim (Option-cases (complete ncd user er1)) [
          | inl g ↦ absurd (
              let z : check_outside ≡ check_done (d, e_unhandled) = rw (f, g, check_request) at h in
              cc)
          | inr (er2, g) ↦ elim (Bool-cases (ends_client now curtime lastswitch user er2)) [
            | inl b ↦ absurd (
                let z : check_exit ≡ check_done (d, e_unhandled) =
                  rw (f, g, b, check_request) at h in
                cc)
            | inr b ↦
                let judged = judge_request sidtab ports user now curtime lastswitch er2 in
                let q : check_done judged ≡ check_done (d, e_unhandled) =
                  rw (f, g, b, check_request) at h in
                let p : judged ≡ (d, e_unhandled) = cc in
                let e : judged.0 ≡ d = ap (λ t. t.0) p in
                let (l, le, ecm, on, single) =
                  judge_request-Accepted now curtime lastswitch er2 (ap (λ t. t.1) p) in
                let same =
                  Same-trans er er1 er2 (find_caid-Same len4caid er er1 f)
                    (complete-Same ncd user er1 er2 g) in
                (
                  ap (λ t. t.l) (sym e) ∙ l ∙ ap ecm_length e,
                  omega (arith, le, same.1, ap (λ t. t.l) e),
                  ap (λ t. t.ecm) (sym e) ∙ ecm ∙ same.0,
                  on,
                  single,
                )
          ]
        ]
      ]
