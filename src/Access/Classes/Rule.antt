-- ===== src/Access/Classes/Rule.antt =====
-- About `chk_class`: the classes of an ECM as a list, and the rule of the filter over them.
use oscam_vdr.Base.{
  ℕ, zero, suc, ◌+◌, ◌-◌, ◌≤◌, ◌<◌, ◌≡◌, refl, Bool, false, ◌&&◌, ◌||◌, not, Option, none, some,
  List, [], ◌∷◌, ◌⊎◌, inl, inr, ◌==◌, nonzero, if◌then◌else◌, any, arith, Bool-cases, length,
}
use oscam_vdr.Access.{EcmRequest, ClassTab}
use oscam_vdr.Access.Services.{is_empty}
use oscam_vdr.Access.Classes.{
  byte_at, nano_loop, find_nano, cs_nano_class, class_round, class_loop, with_verdict, chk_class,
}

nano_loop_progress :
    (ecm : List ℕ) (nano left s : ℕ)
    → (nano_loop ecm nano left s ≡ 0)
      ⊎ ((s < nano_loop ecm nano left s) × (nano_loop ecm nano left s ≤ s + left))
unfolding nano_loop
nano_loop_progress ecm nano zero s = inl refl
nano_loop_progress ecm nano (suc left) s = ground (arith, nano_loop_progress ecm nano left (s + 1))

-- A position that `find_nano` returns lies behind the start and within the ECM.
pub find_nano_progress :
    (ecm : List ℕ) (l nano s : ℕ)
    → (find_nano ecm l nano s ≡ 0) ⊎ ((s < find_nano ecm l nano s) × (find_nano ecm l nano s ≤ l))
unfolding find_nano
find_nano_progress ecm l nano s = ground (
  arith,
  nano_loop_progress ecm nano (l - s) s,
  nano_loop_progress ecm nano (l - 9) 9,
  nano_loop_progress ecm nano (l - 12) 12,
)

-- The class bytes that the scan meets from position `j` on, whatever the filter.
unfoldable pub classes_round : EcmRequest → ℕ → (ℕ → List ℕ) → List ℕ
classes_round er pos rest =
    let next = pos + byte_at er.ecm pos in if pos == 0 then [] else byte_at er.ecm next ∷ rest next

unfoldable pub ecm_classes : ℕ → EcmRequest → ℕ → List ℕ
ecm_classes zero er j = []
ecm_classes (suc fuel) er j =
    classes_round er (find_nano er.ecm er.l cs_nano_class j) (ecm_classes fuel er)

-- How many of the classes a list holds.
abbrev pub hits_in : List ℕ → List ℕ → ℕ
hits_in tab [] = 0
hits_in tab (c ∷ cs) = (if any (λ x. c == x) tab then 1 else 0) + hits_in tab cs

-- Some class is in the list.
abbrev pub meets : List ℕ → List ℕ → Bool
meets tab [] = false
meets tab (c ∷ cs) = any (λ x. c == x) tab || meets tab cs

abbrev scan_result : ClassTab → ℕ → ℕ → List ℕ → Option (ℕ × ℕ)
scan_result tab seen hits cs =
    if meets tab.bclass cs then none else some (seen + length cs, hits + hits_in tab.aclass cs)

class_round-classes :
    (er : EcmRequest) (tab : ClassTab) (pos seen hits : ℕ)
    (rest : ℕ → ℕ → ℕ → Option (Option (ℕ × ℕ))) (classes : ℕ → List ℕ)
    → (0 < pos
        → (n h : ℕ)
        → rest (pos + byte_at er.ecm pos) n h
          ≡ some (scan_result tab n h (classes (pos + byte_at er.ecm pos))))
    → class_round er tab pos seen hits rest
      ≡ some (scan_result tab seen hits (classes_round er pos classes))
unfolding class_round classes_round
class_round-classes er tab pos seen hits rest classes ih =
    let p = pos + byte_at er.ecm pos in
    elim (Bool-cases (pos == 0)) [
      | inl e ↦ rw e (ground arith)
      | inr e ↦
          ground (arith, ih (ground arith) (seen + 1) hits, ih (ground arith) (seen + 1) (hits + 1))
    ]

class_loop-classes :
    (fuel : ℕ) (er : EcmRequest) (tab : ClassTab) (j seen hits : ℕ)
    → er.l ≤ fuel + j
    → class_loop (suc fuel) er tab j seen hits
      ≡ some (scan_result tab seen hits (ecm_classes (suc fuel) er j))
unfolding class_loop ecm_classes
class_loop-classes zero er tab j seen hits h =
    class_round-classes er tab (find_nano er.ecm er.l cs_nano_class j) seen hits _ _
      λ p n k. absurd (omega (arith, find_nano_progress er.ecm er.l cs_nano_class j))
class_loop-classes (suc fuel) er tab j seen hits h =
    class_round-classes er tab (find_nano er.ecm er.l cs_nano_class j) seen hits
      (class_loop (suc fuel) er tab) (ecm_classes (suc fuel) er)
      λ p n k.
        class_loop-classes fuel er tab
          (find_nano er.ecm er.l cs_nano_class j
            + byte_at er.ecm (find_nano er.ecm er.l cs_nano_class j))
          n k (omega (arith, find_nano_progress er.ecm er.l cs_nano_class j))

hits_in-meets : (tab cs : List ℕ) → nonzero (hits_in tab cs) ≡ meets tab cs
hits_in-meets tab [] = refl
hits_in-meets tab (c ∷ cs) = ground (arith, hits_in-meets tab cs)

scan_verdict :
    (tab : ClassTab) (cs : List ℕ)
    → with_verdict tab (some (scan_result tab 0 0 cs))
      ≡ (not (meets tab.bclass cs) && (is_empty cs || (is_empty tab.aclass || meets tab.aclass cs)))
unfolding with_verdict
scan_verdict tab [] = ground arith
scan_verdict tab (c ∷ cs) = ground (arith, hits_in-meets tab.aclass (c ∷ cs))

-- `chk_class` always ends. Of an ECM of the system 0x0500 under a filter with entries it lets pass
-- exactly those with no blocked class and, where classes are listed as allowed and the ECM has
-- any, with one that is allowed; it lets all others pass.
pub chk_class-meets :
    (er : EcmRequest) (tab : ClassTab)
    → let cs = ecm_classes (er.l + 1) er 0 in
      chk_class er tab ≡ (
        not (er.caid == 0x500)
        || ((is_empty tab.bclass && is_empty tab.aclass)
            || (not (meets tab.bclass cs)
                && (is_empty cs || (is_empty tab.aclass || meets tab.aclass cs)))))
unfolding chk_class
chk_class-meets er tab =
    let e : er.l + 1 ≡ suc er.l = omega arith in
    rw e (
      rw (class_loop-classes er.l er tab 0 0 0 (omega arith))
        (rw (scan_verdict tab (ecm_classes (suc er.l) er 0)) (ground arith)))
