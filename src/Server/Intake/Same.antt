-- ===== src/Server/Intake/Same.antt =====
-- What the corrections and checks of a request leave as it is.
use oscam_vdr.Base.{
  ℕ, ◌≡◌, refl, sym, ap, ◌∙◌, ◌&&◌, ◌||◌, not, Option, none, some, List, [], ◌==◌, ltb, leb,
  nonzero, bit_and, Bool-cases, Option-cases, inl, inr, get_or, any,
}
use oscam_vdr.Convert.Bytes.{at}
use oscam_vdr.Access.{Ftab, Client, EcmRequest}
use oscam_vdr.Access.Services.{is_empty}
use oscam_vdr.Access.Classes.{chk_class}
use oscam_vdr.Access.Filters.{chk_user_class, chk_ufilters, chk_sfilter, chk_chid, lists}
use oscam_vdr.Server.Packets.{chk_provid}
use oscam_vdr.Server.Intake.{chk_caid, chk_bcaid}
use oscam_vdr.Server.Intake.Corrections.{
  CaidRow, User, fix_chid, fix_srvid, fix_prid, fix_caid, fix_nagra, quickfix, NcdPorts,
  find_provider, by_form, by_length, guess_cardsystem, find_caid, complete, ncd_provider,
}

-- The bytes and the length stay.
abbrev pub Same : EcmRequest → EcmRequest → Type 0
Same er d = (d.ecm ≡ er.ecm) × (d.l ≡ er.l)

pub chk_user_class-Same : (cl : Client) (er : EcmRequest) → Same er (chk_user_class cl er).1
unfolding chk_user_class
chk_user_class-Same cl er = elim (Bool-cases (chk_class er cl.cltab)) [
  | inr e ↦ rw (e, chk_user_class) (refl, refl)
  | inl e ↦ elim (Bool-cases (chk_chid er cl.fchid)) [
    | inr f ↦ rw (e, f, chk_user_class) (refl, refl)
    | inl f ↦ rw (e, f, chk_user_class) (refl, refl)
  ]
]

pub chk_ufilters-Same : (cl : Client) (er : EcmRequest) → Same er (chk_ufilters cl er).1
unfolding chk_ufilters
chk_ufilters-Same cl er = elim (Bool-cases (is_empty cl.ftab)) [
  | inl e ↦ rw (e, chk_ufilters) (chk_user_class-Same cl er)
  | inr e ↦
      elim (Bool-cases (
        any
          (λ f.
            (er.caid == 0 || (f.caid == 0 || (not (er.caid == 0) && er.caid == f.caid)))
            && lists f er.prid)
          cl.ftab)) [
            | inl f ↦ rw (e, f, chk_ufilters) (chk_user_class-Same cl er)
            | inr f ↦ rw (e, f, chk_ufilters) (refl, refl)
          ]
]

pub chk_sfilter-Same :
    (cl : Client) (er : EcmRequest) (ports : Option (List Ftab))
    → Same er (chk_sfilter cl er ports).1
unfolding chk_sfilter
chk_sfilter-Same cl er none = (refl, refl)
chk_sfilter-Same cl er (some ports) =
    let filts = get_or ports cl.port_idx [] in
    elim (Bool-cases (not (is_empty ports) && not (is_empty filts))) [
      | inr e ↦ rw (e, chk_sfilter) (refl, refl)
      | inl e ↦
          elim (Bool-cases (
            any
              (λ f. (er.caid == 0 || (not (er.caid == 0) && er.caid == f.caid)) && lists f er.prid)
              filts)) [
                | inl f ↦ rw (e, f, chk_sfilter) (refl, refl)
                | inr f ↦ rw (e, f, chk_sfilter) (refl, refl)
              ]
    ]

pub chk_bcaid-Same : (er : EcmRequest) (ctab : List CaidRow) → Same er (chk_bcaid er ctab).1
unfolding chk_bcaid
chk_bcaid-Same er ctab = elim (Option-cases (chk_caid er.caid ctab)) [
  | inl e ↦ rw (e, chk_bcaid) (refl, refl)
  | inr (caid, e) ↦ rw (e, chk_bcaid) (refl, refl)
]

pub fix_chid-Same : (er : EcmRequest) → Same er (fix_chid er)
unfolding fix_chid
fix_chid-Same er = elim (Bool-cases ((bit_and er.caid 0xff00 == 0x600) && er.chid == 0)) [
  | inl e ↦ rw (e, fix_chid) (refl, refl)
  | inr e ↦ rw (e, fix_chid) (refl, refl)
]

pub fix_srvid-Same : (er : EcmRequest) → Same er (fix_srvid er)
unfolding fix_srvid
fix_srvid-Same er = elim (Bool-cases (er.caid == 0x100 && (er.prid == 0x65 && er.srvid == 0))) [
  | inl e ↦ rw (e, fix_srvid) (refl, refl)
  | inr e ↦ rw (e, fix_srvid) (refl, refl)
]

pub fix_prid-Same : (er : EcmRequest) → Same er (fix_prid er)
unfolding fix_prid
fix_prid-Same er =
    elim (Bool-cases (er.caid == 0x500 && (er.prid == 0x30300 || er.prid == 0xd20200))) [
      | inl e ↦ rw (e, fix_prid) (refl, refl)
      | inr e ↦ rw (e, fix_prid) (refl, refl)
    ]

pub fix_caid-Same : (er : EcmRequest) → Same er (fix_caid er)
unfolding fix_caid
fix_caid-Same er =
    elim (Bool-cases
      (er.caid == 0x1702 && (er.l == 0x89 && (at er.ecm 3 == 7 && at er.ecm 4 == 0x84)))) [
        | inl e ↦ rw (e, fix_caid) (refl, refl)
        | inr e ↦ rw (e, fix_caid) (refl, refl)
      ]

pub fix_nagra-Same : (er : EcmRequest) → Same er (fix_nagra er)
unfolding fix_nagra
fix_nagra-Same er = elim (Bool-cases ((bit_and er.caid 0xff00 == 0x1800) && ltb 0xffff er.prid)) [
  | inl e ↦ rw (e, fix_nagra) (refl, refl)
  | inr e ↦ rw (e, fix_nagra) (refl, refl)
]

pub Same-trans : (a b c : EcmRequest) → Same a b → Same b c → Same a c
Same-trans a b c p q = (q.0 ∙ p.0, q.1 ∙ p.1)

pub quickfix-Same : (er : EcmRequest) → Same er (quickfix er)
quickfix-Same er =
    let a = fix_chid er in
    let b = fix_srvid a in
    let c = fix_prid b in
    let d = fix_caid c in
    Same-trans er d (fix_nagra d)
      (Same-trans er c d
        (Same-trans er b c (Same-trans er a b (fix_chid-Same er) (fix_srvid-Same a))
          (fix_prid-Same b))
        (fix_caid-Same c))
      (fix_nagra-Same d)

-- A request that a step gives back.
pub Same-some : (er d er1 : EcmRequest) → Same er d → some d ≡ some er1 → Same er er1
Same-some er d er1 s q =
    let e : d ≡ er1 = cc in (ap (λ t. t.ecm) (sym e) ∙ s.0, ap (λ t. t.l) (sym e) ∙ s.1)

pub find_provider-Same : (er er1 : EcmRequest) → find_provider er ≡ some er1 → Same er er1
unfolding find_provider
find_provider-Same er er1 h = elim (Bool-cases (er.prid == 0)) [
  | inr e ↦
      let q : some er ≡ some er1 = rw (e, find_provider) at h in Same-some er er er1 (refl, refl) q
  | inl e ↦ elim (Option-cases (chk_provid er.ecm er.caid)) [
    | inl f ↦ absurd (let z : none ≡ some er1 = rw (e, f, find_provider) at h in cc)
    | inr (prid, f) ↦
        let d = record er { prid = prid } in
        let q : some d ≡ some er1 = rw (e, f, find_provider) at h in
        Same-some er d er1 (refl, refl) q
  ]
]

pub ncd_provider-Same :
    (ncd : NcdPorts) (user : User) (er : EcmRequest) → Same er (ncd_provider ncd user er)
unfolding ncd_provider
ncd_provider-Same ncd user er =
    elim (Bool-cases (
      er.prid == 0
      && (user.ncd_server && (nonzero ncd.nports && leb user.client.port_idx ncd.nports)))) [
        | inl e ↦ rw (e, ncd_provider) (refl, refl)
        | inr e ↦ rw (e, ncd_provider) (refl, refl)
      ]

pub guess_cardsystem-Same :
    (len4caid : List ℕ) (er er1 : EcmRequest)
    → guess_cardsystem len4caid er ≡ some er1
    → Same er er1
unfolding guess_cardsystem
guess_cardsystem-Same len4caid er er1 h = elim (Option-cases (chk_provid er.ecm 0x500)) [
  | inl f ↦ absurd (let z : none ≡ some er1 = rw (f, guess_cardsystem) at h in cc)
  | inr (prid, f) ↦ elim (Bool-cases (nonzero (by_form er.ecm prid))) [
    | inl e ↦
        let d = record er { prid = prid; caid = by_form er.ecm prid } in
        let q : some d ≡ some er1 = rw (f, e, guess_cardsystem) at h in
        Same-some er d er1 (refl, refl) q
    | inr e ↦ elim (Option-cases (by_length len4caid er.ecm)) [
      | inl g ↦ absurd (let z : none ≡ some er1 = rw (f, e, g, guess_cardsystem) at h in cc)
      | inr (caid, g) ↦
          let d = record er { prid = prid; caid = caid } in
          let q : some d ≡ some er1 = rw (f, e, g, guess_cardsystem) at h in
          Same-some er d er1 (refl, refl) q
    ]
  ]
]

pub find_caid-Same :
    (len4caid : List ℕ) (er er1 : EcmRequest) → find_caid len4caid er ≡ some er1 → Same er er1
unfolding find_caid
find_caid-Same len4caid er er1 h = elim (Bool-cases (er.caid == 0)) [
  | inl e ↦ guess_cardsystem-Same len4caid er er1 (rw (e, find_caid) at h)
  | inr e ↦
      let q : some er ≡ some er1 = rw (e, find_caid) at h in Same-some er er er1 (refl, refl) q
]

pub complete-Same :
    (ncd : NcdPorts) (user : User) (er er1 : EcmRequest)
    → complete ncd user er ≡ some er1
    → Same er er1
unfolding complete
complete-Same ncd user er er1 h = elim (Option-cases (find_provider (quickfix er))) [
  | inl f ↦ absurd (let z : none ≡ some er1 = rw (f, complete) at h in cc)
  | inr (d, f) ↦
      let q : some (ncd_provider ncd user d) ≡ some er1 = rw (f, complete) at h in
      Same-some er (ncd_provider ncd user d) er1
        (Same-trans er d (ncd_provider ncd user d)
          (Same-trans er (quickfix er) d (quickfix-Same er) (find_provider-Same (quickfix er) d f))
          (ncd_provider-Same ncd user d))
        q
]
