-- ===== src/Server/Tasks/Counts.antt =====
-- About the counters of `send_dcw`, and about a control word of nothing but 0.
use oscam_vdr.Base.{
  ℕ, suc, ◌+◌, ◌≤◌, ◌≡◌, refl, ap, ◌∙◌, false, Option, none, some, leb, get_elem?, Bool-cases, inl,
  inr, arith,
}
use oscam_vdr.Server.{Request, e_cache2, e_99}
use oscam_vdr.Server.Tasks.{
  Counters, Hub, TaskClient, all_zero, check_cw, checked, count, count_all, send_reader_stat,
  send_dcw,
}
use oscam_vdr.Server.Tasks.Views.{get_elem?-set}

-- All that was counted.
abbrev pub tally : Counters → ℕ
tally c = c.cwfound + (c.cwcache + (c.cwnot + (c.cwtout + c.cwignored)))

count-tally : (rc rc_ex : ℕ) (c : Counters) → tally (count rc rc_ex c) ≡ suc (tally c)
count-tally rc rc_ex c = ground arith

-- The counters of a client, where there is one.
abbrev pub counted : ℕ → Hub → Option Counters
counted k s = elim (get_elem? s.clients k) [ none ↦ none | some cl ↦ some cl.counters ]

send_reader_stat-counters :
    (rdr : Option ℕ) (er : Request) (rc : ℕ) (s : Hub)
    → ((send_reader_stat rdr er rc s).clients ≡ s.clients)
      × ((send_reader_stat rdr er rc s).total ≡ s.total)
unfolding send_reader_stat
send_reader_stat-counters rdr er rc s = elim (Bool-cases (leb e_99 rc)) [
  | inl e ↦ rw (e, send_reader_stat) (refl, refl)
  | inr e ↦ rw (e, send_reader_stat) (refl, refl)
]

-- Each answer adds one to one of the counters of its client, and to one of the server's.
pub send_dcw-tally :
    (k : ℕ) (er : Request) (s : Hub) (cl : TaskClient)
    → get_elem? s.clients k ≡ some cl
    → ((c : Counters) × (counted k (send_dcw k er s).1 ≡ some c)
        × (tally c ≡ suc (tally cl.counters)))
      × (tally (send_dcw k er s).1.total ≡ suc (tally s.total))
unfolding send_dcw count_all
send_dcw-tally k er s cl h =
    let er1 = checked er in
    let (same, total) =
      send_reader_stat-counters er1.selected_reader (record er1 { caid = er.caid }) er1.rc s in
    let new = count er1.rc er1.rc_ex in
    let at = ap (λ t. get_elem? t k) same ∙ h in
    let put = get_elem?-set _ k cl (record cl { counters = new cl.counters }) at in
    rw (at, count_all, total, counted, put)
      (
        (new cl.counters, refl, count-tally er1.rc er1.rc_ex cl.counters),
        count-tally er1.rc er1.rc_ex s.total,
      )

-- What counts as found, or found in the cache, has a control word that is not all 0.
pub checked-all_zero :
    (er : Request) → (checked er).rc ≤ e_cache2 → all_zero (checked er).cw ≡ false
unfolding checked check_cw
checked-all_zero er h = elim (Bool-cases (all_zero er.cw)) [
  | inr n ↦ n
  | inl z ↦ absurd (ground arith)
]
