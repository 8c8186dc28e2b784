-- ===== src/Access/Services.antt =====
-- oscam-chk.c, the service tables (`chk_srvid` and its kin). A return of 0 or 1 is a Bool.
-- The bit of table `nr` is `(SIDTABBITS)1<<nr`; OSCam keeps at most 64 tables.
pub mod Verdict
use oscam_vdr.Base.{
  ℕ, ◌+◌, ◌^◌, ◌%◌, Bool, true, false, ◌&&◌, ◌||◌, not, List, [], ◌∷◌, bit_and, bit_or, ◌==◌,
  nonzero, if◌then◌else◌,
}
use oscam_vdr.Access.{SidTab, Client, EcmRequest}

-- `for (i=0; i<num && !(rc&bit); i++) if (v==tab[i]) rc|=bit;`
unfoldable pub scan_tab : ℕ → ℕ → List ℕ → ℕ → ℕ
scan_tab bit v [] rc = rc
scan_tab bit v (x ∷ xs) rc =
    if nonzero (bit_and rc bit)
    then rc
    else scan_tab bit v xs (if v == x then bit_or rc bit else rc)

-- One of the tests: a table without entries lets everything pass.
unfoldable pub test_tab : ℕ → ℕ → List ℕ → ℕ → ℕ
unfolding scan_tab
test_tab bit v [] rc = bit_or rc bit
test_tab bit v (x ∷ xs) rc = scan_tab bit v (x ∷ xs) rc

unfoldable pub chk_srvid_match : EcmRequest → SidTab → Bool
unfolding test_tab
chk_srvid_match er sidtab =
    let rc = test_tab 1 er.caid sidtab.caid 0 in
    let rc' = test_tab 2 er.prid sidtab.provid rc in
    let rc'' = test_tab 4 er.srvid sidtab.srvid rc' in rc'' == 7

unfoldable pub chk_srvid_match_by_caid_prov : ℕ → ℕ → SidTab → Bool
unfolding test_tab
chk_srvid_match_by_caid_prov caid provid sidtab =
    let rc = test_tab 1 caid sidtab.caid 0 in
    let rc' = test_tab 2 provid sidtab.provid rc in rc' == 3

abbrev pub is_empty {ℓ} : {A : Type ℓ} → List A → Bool
is_empty [] = true
is_empty (x ∷ xs) = false

abbrev pub has_bit : ℕ → ℕ → Bool
has_bit bits nr = nonzero (bit_and bits (2 ^ nr % 2 ^ 64))

-- One round of the loop over the tables: a blank table is passed over, one that forbids ends the
-- loop with 0, one that allows sets `rc`. `rest` goes on with the next table.
unfoldable pub table_step : Bool → Bool → Bool → Bool → (Bool → Bool) → Bool
table_step blank forbids allows rc rest = elim blank [
  | true ↦ rest rc
  | false ↦ elim forbids [ true ↦ false | false ↦ rest (if allows then true else rc) ]
]

-- The loop of `chk_srvid` over the tables from number `nr` on.
unfoldable pub srvid_loop : Client → EcmRequest → ℕ → List SidTab → Bool → Bool
srvid_loop cl er nr [] rc = rc
srvid_loop cl er nr (t ∷ ts) rc =
    table_step (is_empty t.caid && (is_empty t.provid && is_empty t.srvid))
      (has_bit cl.sidtabno nr && chk_srvid_match er t)
      (has_bit cl.sidtabok nr && chk_srvid_match er t) rc (srvid_loop cl er (nr + 1) ts)

unfoldable pub chk_srvid : List SidTab → Client → EcmRequest → Bool
unfolding srvid_loop table_step
chk_srvid sidtab cl er =
    if nonzero cl.sidtabok
    then srvid_loop cl er 0 sidtab false
    else if nonzero cl.sidtabno
    then srvid_loop cl er 0 sidtab true
    else true

unfoldable pub has_srvid_loop : Client → EcmRequest → ℕ → List SidTab → Bool
has_srvid_loop cl er nr [] = false
has_srvid_loop cl er nr (t ∷ ts) =
    elim (not (is_empty t.srvid) && (has_bit cl.sidtabok nr && chk_srvid_match er t)) [
      | true ↦ true
      | false ↦ has_srvid_loop cl er (nr + 1) ts
    ]

unfoldable pub has_srvid : List SidTab → Client → EcmRequest → Bool
unfolding has_srvid_loop
has_srvid sidtab cl er = if nonzero cl.sidtabok then has_srvid_loop cl er 0 sidtab else false

unfoldable pub caid_prov_loop : Client → ℕ → ℕ → ℕ → List SidTab → Bool → Bool
caid_prov_loop cl caid provid nr [] rc = rc
caid_prov_loop cl caid provid nr (t ∷ ts) rc =
    table_step (is_empty t.caid && is_empty t.provid)
      (has_bit cl.sidtabno nr && (is_empty t.srvid && chk_srvid_match_by_caid_prov caid provid t))
      (has_bit cl.sidtabok nr && chk_srvid_match_by_caid_prov caid provid t) rc
      (caid_prov_loop cl caid provid (nr + 1) ts)

unfoldable pub chk_srvid_by_caid_prov : List SidTab → Client → ℕ → ℕ → Bool
unfolding caid_prov_loop table_step
chk_srvid_by_caid_prov sidtab cl caid provid =
    if nonzero cl.sidtabok
    then caid_prov_loop cl caid provid 0 sidtab false
    else if nonzero cl.sidtabno
    then caid_prov_loop cl caid provid 0 sidtab true
    else true
