-- ===== src/Access/Services/Verdict.antt =====
-- What the service checks decide, said without their loops.
use oscam_vdr.Base.{
  ℕ, ◌+◌, ◌≡◌, refl, Bool, true, false, ◌&&◌, ◌||◌, not, List, [], ◌∷◌, inl, inr, bit_and, bit_or,
  ◌==◌, nonzero, if◌then◌else◌, any, arith, Bool-cases,
}
use mathlib.Core.Path.{fun_ext}
use Prim.Native.Nat.{bit_and-bitwise, ◌^◌, ◌%◌}
use oscam_vdr.Access.{SidTab, Client, EcmRequest}
use oscam_vdr.Access.Services.{
  scan_tab, test_tab, chk_srvid_match, chk_srvid_match_by_caid_prov, is_empty, has_bit, srvid_loop,
  chk_srvid, has_srvid_loop, has_srvid, table_step, caid_prov_loop, chk_srvid_by_caid_prov,
}

-- A value passes a table that is empty or holds it.
abbrev pub admits : List ℕ → ℕ → Bool
admits tab v = is_empty tab || any (λ x. v == x) tab

abbrev pub matches : SidTab → ℕ → ℕ → ℕ → Bool
matches t caid prid srvid = admits t.caid caid && (admits t.provid prid && admits t.srvid srvid)

abbrev pub add_bit : ℕ → ℕ → Bool → ℕ
add_bit bit rc b = if b then bit_or rc bit else rc

scan_tab_set :
    (bit v : ℕ) (xs : List ℕ) (rc : ℕ) → nonzero (bit_and rc bit) ≡ true → scan_tab bit v xs rc ≡ rc
unfolding scan_tab
scan_tab_set bit v [] rc h = refl
scan_tab_set bit v (x ∷ xs) rc h = rw h

-- A scan that starts with the bit clear sets it if the value occurs.
scan_tab-any :
    (bit v : ℕ) (xs : List ℕ) (rc : ℕ)
    → nonzero (bit_and rc bit) ≡ false
    → nonzero (bit_and (bit_or rc bit) bit) ≡ true
    → scan_tab bit v xs rc ≡ add_bit bit rc (any (λ x. v == x) xs)
unfolding scan_tab
scan_tab-any bit v [] rc h k = refl
scan_tab-any bit v (x ∷ xs) rc h k = elim (Bool-cases (v == x)) [
  | inl e ↦ rw h (rw e (scan_tab_set bit v xs (bit_or rc bit) k))
  | inr e ↦ rw h (rw e (scan_tab-any bit v xs rc h k))
]

test_tab-admits :
    (bit v : ℕ) (xs : List ℕ) (rc : ℕ)
    → nonzero (bit_and rc bit) ≡ false
    → nonzero (bit_and (bit_or rc bit) bit) ≡ true
    → test_tab bit v xs rc ≡ add_bit bit rc (admits xs v)
unfolding test_tab
test_tab-admits bit v [] rc h k = refl
test_tab-admits bit v (x ∷ xs) rc h k = scan_tab-any bit v (x ∷ xs) rc h k

second_bit :
    (b : Bool) (v : ℕ) (xs : List ℕ)
    → test_tab 2 v xs (add_bit 1 0 b) ≡ add_bit 2 (add_bit 1 0 b) (admits xs v)
second_bit true v xs = test_tab-admits 2 v xs 1 refl refl
second_bit false v xs = test_tab-admits 2 v xs 0 refl refl

third_bit :
    (b c : Bool) (v : ℕ) (xs : List ℕ)
    → test_tab 4 v xs (add_bit 2 (add_bit 1 0 b) c)
      ≡ add_bit 4 (add_bit 2 (add_bit 1 0 b) c) (admits xs v)
third_bit true true v xs = test_tab-admits 4 v xs 3 refl refl
third_bit true false v xs = test_tab-admits 4 v xs 1 refl refl
third_bit false true v xs = test_tab-admits 4 v xs 2 refl refl
third_bit false false v xs = test_tab-admits 4 v xs 0 refl refl

seven : (b c d : Bool) → (add_bit 4 (add_bit 2 (add_bit 1 0 b) c) d == 7) ≡ (b && (c && d))
seven true true true = refl
seven true true false = refl
seven true false true = refl
seven true false false = refl
seven false true true = refl
seven false true false = refl
seven false false true = refl
seven false false false = refl

three : (b c : Bool) → (add_bit 2 (add_bit 1 0 b) c == 3) ≡ (b && c)
three true true = refl
three true false = refl
three false true = refl
three false false = refl

-- `chk_srvid_match` holds exactly when the caid, the provider and the service each pass their
-- table, that is, the table is empty or holds the value.
pub chk_srvid_match-matches :
    (er : EcmRequest) (t : SidTab) → chk_srvid_match er t ≡ matches t er.caid er.prid er.srvid
unfolding chk_srvid_match
chk_srvid_match-matches er t = rw (test_tab-admits 1 er.caid t.caid 0 refl refl) (
    rw (second_bit (admits t.caid er.caid) er.prid t.provid) (
      rw (third_bit (admits t.caid er.caid) (admits t.provid er.prid) er.srvid t.srvid)
        (seven (admits t.caid er.caid) (admits t.provid er.prid) (admits t.srvid er.srvid))))

-- The check by caid and provider leaves the service out.
pub chk_srvid_match_by_caid_prov-admits :
    (caid provid : ℕ) (t : SidTab)
    → chk_srvid_match_by_caid_prov caid provid t ≡ (admits t.caid caid && admits t.provid provid)
unfolding chk_srvid_match_by_caid_prov
chk_srvid_match_by_caid_prov-admits caid provid t = rw (test_tab-admits 1 caid t.caid 0 refl refl) (
    rw (second_bit (admits t.caid caid) provid t.provid)
      (three (admits t.caid caid) (admits t.provid provid)))

-- Some table from number `nr` on has the property.
abbrev pub any_from : (ℕ → SidTab → Bool) → ℕ → List SidTab → Bool
any_from p nr [] = false
any_from p nr (t ∷ ts) = p nr t || any_from p (nr + 1) ts

abbrev pub is_blank : SidTab → Bool
is_blank t = is_empty t.caid && (is_empty t.provid && is_empty t.srvid)

-- The table is not blank, its bit is in the set, and the request matches it.
abbrev pub selects : ℕ → EcmRequest → ℕ → SidTab → Bool
selects bits er nr t = not (is_blank t) && (has_bit bits nr && matches t er.caid er.prid er.srvid)

-- What a round adds to the verdict on the rest.
table_step_lem :
    (blank forbids allows rc no_rest ok_rest : Bool)
    → table_step blank forbids allows rc (λ r. not no_rest && (r || ok_rest))
      ≡ (not ((not blank && forbids) || no_rest) && (rc || ((not blank && allows) || ok_rest)))
unfolding table_step
table_step_lem blank forbids allows rc no_rest ok_rest = ground arith

srvid_loop-any :
    (cl : Client) (er : EcmRequest) (nr : ℕ) (ts : List SidTab) (rc : Bool)
    → srvid_loop cl er nr ts rc ≡ (
        not (any_from (selects cl.sidtabno er) nr ts)
        && (rc || any_from (selects cl.sidtabok er) nr ts))
unfolding srvid_loop
srvid_loop-any cl er nr [] rc = ground arith
srvid_loop-any cl er nr (t ∷ ts) rc =
    rw (fun_ext (srvid_loop-any cl er (nr + 1) ts), chk_srvid_match-matches er t)
      (table_step_lem (is_blank t) (has_bit cl.sidtabno nr && matches t er.caid er.prid er.srvid)
        (has_bit cl.sidtabok nr && matches t er.caid er.prid er.srvid) rc
        (any_from (selects cl.sidtabno er) (nr + 1) ts)
        (any_from (selects cl.sidtabok er) (nr + 1) ts))

has_bit_zero : (nr : ℕ) → has_bit 0 nr ≡ false
has_bit_zero nr = rw (bit_and-bitwise 0 (2 ^ nr % 2 ^ 64))

any_from_none :
    (p : ℕ → SidTab → Bool) (nr : ℕ) (ts : List SidTab)
    → ((n : ℕ) (t : SidTab) → p n t ≡ false)
    → any_from p nr ts ≡ false
any_from_none p nr [] h = refl
any_from_none p nr (t ∷ ts) h = rw (h nr t) (any_from_none p (nr + 1) ts h)

-- With no bit set, no table is selected.
selects-zero :
    (b : ℕ) (er : EcmRequest) (ts : List SidTab)
    → nonzero b ≡ false
    → any_from (selects b er) 0 ts ≡ false
selects-zero b er ts h =
    any_from_none (selects b er) 0 ts
      λ n t. let z : b ≡ 0 = ground arith in rw z (rw (has_bit_zero n) (ground arith))

-- `chk_srvid` lets a request pass exactly when no table selected by `sidtabno` matches it and,
-- if `sidtabok` is not 0, some table selected by `sidtabok` does.
pub chk_srvid-selects :
    (ts : List SidTab) (cl : Client) (er : EcmRequest)
    → chk_srvid ts cl er ≡ (
        not (any_from (selects cl.sidtabno er) 0 ts)
        && (not (nonzero cl.sidtabok) || any_from (selects cl.sidtabok er) 0 ts))
unfolding chk_srvid
chk_srvid-selects ts cl er = elim (Bool-cases (nonzero cl.sidtabok)) [
  | inl e ↦ rw e (srvid_loop-any cl er 0 ts false)
  | inr e ↦ elim (Bool-cases (nonzero cl.sidtabno)) [
    | inl d ↦ rw e (rw d (srvid_loop-any cl er 0 ts true))
    | inr d ↦ rw e (rw d (rw (selects-zero cl.sidtabno er ts d)))
  ]
]

-- Some table of `sidtabok` that restricts the service selects the request.
abbrev pub selects_service : ℕ → EcmRequest → ℕ → SidTab → Bool
selects_service bits er nr t =
    not (is_empty t.srvid) && (has_bit bits nr && matches t er.caid er.prid er.srvid)

has_srvid_loop-any :
    (cl : Client) (er : EcmRequest) (nr : ℕ) (ts : List SidTab)
    → has_srvid_loop cl er nr ts ≡ any_from (selects_service cl.sidtabok er) nr ts
unfolding has_srvid_loop
has_srvid_loop-any cl er nr [] = refl
has_srvid_loop-any cl er nr (t ∷ ts) =
    rw (chk_srvid_match-matches er t, has_srvid_loop)
      (elim (Bool-cases (selects_service cl.sidtabok er nr t)) [
        | inl e ↦ rw (e, has_srvid_loop)
        | inr e ↦ rw (e, has_srvid_loop) (has_srvid_loop-any cl er (nr + 1) ts)
      ])

-- `has_srvid` holds exactly when some table of `sidtabok` that names services matches.
pub has_srvid-selects :
    (ts : List SidTab) (cl : Client) (er : EcmRequest)
    → has_srvid ts cl er ≡ (nonzero cl.sidtabok && any_from (selects_service cl.sidtabok er) 0 ts)
unfolding has_srvid
has_srvid-selects ts cl er = elim (Bool-cases (nonzero cl.sidtabok)) [
  | inl e ↦ rw e (has_srvid_loop-any cl er 0 ts)
  | inr e ↦ rw e
]

abbrev pub admits_pair : ℕ → ℕ → SidTab → Bool
admits_pair caid provid t = admits t.caid caid && admits t.provid provid

abbrev pub restricts_pair : SidTab → Bool
restricts_pair t = not (is_empty t.caid && is_empty t.provid)

abbrev pub forbids_pair : ℕ → ℕ → ℕ → ℕ → SidTab → Bool
forbids_pair bits caid provid nr t =
    restricts_pair t && (has_bit bits nr && (is_empty t.srvid && admits_pair caid provid t))

abbrev pub allows_pair : ℕ → ℕ → ℕ → ℕ → SidTab → Bool
allows_pair bits caid provid nr t =
    restricts_pair t && (has_bit bits nr && admits_pair caid provid t)

caid_prov_loop-any :
    (cl : Client) (caid provid nr : ℕ) (ts : List SidTab) (rc : Bool)
    → caid_prov_loop cl caid provid nr ts rc ≡ (
        not (any_from (forbids_pair cl.sidtabno caid provid) nr ts)
        && (rc || any_from (allows_pair cl.sidtabok caid provid) nr ts))
unfolding caid_prov_loop
caid_prov_loop-any cl caid provid nr [] rc = ground arith
caid_prov_loop-any cl caid provid nr (t ∷ ts) rc =
    rw
      (
        fun_ext (caid_prov_loop-any cl caid provid (nr + 1) ts),
        chk_srvid_match_by_caid_prov-admits caid provid t,
      )
      (table_step_lem (is_empty t.caid && is_empty t.provid)
        (has_bit cl.sidtabno nr && (is_empty t.srvid && admits_pair caid provid t))
        (has_bit cl.sidtabok nr && admits_pair caid provid t) rc
        (any_from (forbids_pair cl.sidtabno caid provid) (nr + 1) ts)
        (any_from (allows_pair cl.sidtabok caid provid) (nr + 1) ts))

forbids_pair-zero :
    (b caid provid : ℕ) (ts : List SidTab)
    → nonzero b ≡ false
    → any_from (forbids_pair b caid provid) 0 ts ≡ false
forbids_pair-zero b caid provid ts h =
    any_from_none (forbids_pair b caid provid) 0 ts
      λ n t. let z : b ≡ 0 = ground arith in rw z (rw (has_bit_zero n) (ground arith))

-- The check by caid and provider: no table of `sidtabno` without services matches the pair and,
-- if `sidtabok` is not 0, some table of `sidtabok` matches it.
pub chk_srvid_by_caid_prov-allows :
    (ts : List SidTab) (cl : Client) (caid provid : ℕ)
    → chk_srvid_by_caid_prov ts cl caid provid ≡ (
        not (any_from (forbids_pair cl.sidtabno caid provid) 0 ts)
        && (not (nonzero cl.sidtabok) || any_from (allows_pair cl.sidtabok caid provid) 0 ts))
unfolding chk_srvid_by_caid_prov
chk_srvid_by_caid_prov-allows ts cl caid provid = elim (Bool-cases (nonzero cl.sidtabok)) [
  | inl e ↦ rw e (caid_prov_loop-any cl caid provid 0 ts false)
  | inr e ↦ elim (Bool-cases (nonzero cl.sidtabno)) [
    | inl d ↦ rw e (rw d (caid_prov_loop-any cl caid provid 0 ts true))
    | inr d ↦ rw e (rw d (rw (forbids_pair-zero cl.sidtabno caid provid ts d)))
  ]
]
