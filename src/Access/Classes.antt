-- ===== src/Access/Classes.antt =====
-- oscam-chk.c, the class filter of Viaccess (`find_nano`, `chk_class`). Bytes past the stored ECM
-- are 0, as in the cleared buffer of the request.
pub mod Rule
use oscam_vdr.Base.{
  ℕ, zero, suc, ◌+◌, ◌-◌, Bool, true, false, ◌&&◌, not, Option, none, some, List, ◌==◌, leb,
  nonzero, if◌then◌else◌, get_or, any, length,
}
use oscam_vdr.Access.{EcmRequest, ClassTab}
use oscam_vdr.Access.Services.{is_empty}

abbrev pub byte_at : List ℕ → ℕ → ℕ
byte_at ecm i = get_or ecm i 0

-- The `while` of `find_nano`, with `left` places before the end `l`. Position `l` itself ends it.
unfoldable pub nano_loop : List ℕ → ℕ → ℕ → ℕ → ℕ
nano_loop ecm nano zero s = 0
nano_loop ecm nano (suc left) s = elim (byte_at ecm s == nano) [
  | true ↦ s + 1
  | false ↦ elim (byte_at ecm s == 0xea) [ true ↦ 0 | false ↦ nano_loop ecm nano left (s + 1) ]
]

-- The position behind the next `nano` from `s` on, or 0.
unfoldable pub find_nano : List ℕ → ℕ → ℕ → ℕ → ℕ
unfolding nano_loop
find_nano ecm l nano s =
    if leb l s
    then 0
    else (let start = if s == 0 then (if byte_at ecm 4 == 0xd2 then 12 else 9) else s in
        nano_loop ecm nano (l - start) start)

abbrev pub cs_nano_class : ℕ
cs_nano_class = 0xe2

-- One round of the `while` of `chk_class`, with `find_nano`'s answer `pos`: `seen` and `hits` are
-- `cl_n` and `an`, and `rest` is the next round. `some none` is the early `return 0`.
unfoldable pub class_round :
    EcmRequest
    → ClassTab
    → ℕ
    → ℕ
    → ℕ
    → (ℕ → ℕ → ℕ → Option (Option (ℕ × ℕ)))
    → Option (Option (ℕ × ℕ))
class_round er tab pos seen hits rest =
    let ecm_class = byte_at er.ecm (pos + byte_at er.ecm pos) in
    if pos == 0
    then some (some (seen, hits))
    else if any (λ x. ecm_class == x) tab.bclass
    then some none
    else rest (pos + byte_at er.ecm pos) (seen + 1)
        (if any (λ x. ecm_class == x) tab.aclass then hits + 1 else hits)

-- The `while` at position `j`. None means that the fuel ran out.
unfoldable pub class_loop : ℕ → EcmRequest → ClassTab → ℕ → ℕ → ℕ → Option (Option (ℕ × ℕ))
class_loop zero er tab j seen hits = none
class_loop (suc fuel) er tab j seen hits =
    class_round er tab (find_nano er.ecm er.l cs_nano_class j) seen hits (class_loop fuel er tab)

-- Behind the loop: `if (cl_n && clstab->an) if (!an) return 0;`, and 0 where a class was blocked.
unfoldable pub class_verdict : ClassTab → Option (ℕ × ℕ) → Bool
class_verdict tab none = false
class_verdict tab (some (seen, hits)) =
    if nonzero seen && not (is_empty tab.aclass) then nonzero hits else true

unfoldable pub with_verdict : ClassTab → Option (Option (ℕ × ℕ)) → Bool
unfolding class_verdict
with_verdict tab none = false
with_verdict tab (some r) = class_verdict tab r

-- The scan moves on at every round, so `l + 1` rounds are enough.
unfoldable pub chk_class : EcmRequest → ClassTab → Bool
unfolding with_verdict
chk_class er tab =
    if not (er.caid == 0x500)
    then true
    else if is_empty tab.bclass && is_empty tab.aclass
    then true
    else with_verdict tab (class_loop (er.l + 1) er tab 0 0 0)
