-- ===== src/AntiCascade/Requests/Weight.antt =====
-- About `ac_chk` and `ac_dw_weight`: when an ECM is counted, and with what weight.
use oscam_vdr.Base.{
  ℕ, ◌*◌, ◌/◌, ◌<◌, ◌≡◌, refl, true, false, List, [], ◌∷◌, ◌++◌, any, nonzero, if◌then◌else◌, arith,
  inl, inr, Bool-cases, ==_refl,
}
use oscam_vdr.AntiCascade.{Cpmap, Config, AcClient}
use oscam_vdr.AntiCascade.Requests.{AcRequest, e_notfound, covers, ac_dw_weight, same_md5, ac_chk}

same_md5_refl : (xs : List ℕ) → same_md5 xs xs ≡ true
unfolding same_md5
same_md5_refl [] = refl
same_md5_refl (x ∷ xs) = rw (==_refl x, same_md5_refl xs)

-- An ECM that was found adds its weight once: a second answer to the same ECM changes nothing.
pub ac_chk_once :
    (cfg : Config) (cl : AcClient) (penalty : ℕ) (er : AcRequest) (md5 : List ℕ)
    → er.rc < e_notfound
    → let first = ac_chk cfg cl penalty er 1 md5 in
      ac_chk cfg (record cl { acasc = first.acasc }) penalty er 1 first.ac_ecmd5 ≡ first
unfolding ac_chk
ac_chk_once cfg cl penalty er md5 h = ground (arith, same_md5_refl er.ecmd5)

-- The last ECM that was counted is kept for all clients together: once one client has had an ECM,
-- the same ECM adds nothing to the weight of another.
pub ac_chk_shared :
    (cfg : Config) (cl other : AcClient) (penalty penalty' : ℕ) (er : AcRequest) (md5 : List ℕ)
    → er.rc < e_notfound
    → nonzero cl.ac_limit ≡ true
    → cfg.ac_enabled ≡ true
    → (ac_chk cfg other penalty' er 1 (ac_chk cfg cl penalty er 1 md5).ac_ecmd5).acasc ≡ other.acasc
unfolding ac_chk
ac_chk_shared cfg cl other penalty penalty' er md5 h lim en = ground (arith, same_md5_refl er.ecmd5)

-- Entries that do not cover a request are passed over: its weight is that of the first entry that
-- covers it, and 16 where none does.
pub ac_dw_weight_first :
    (er : AcRequest) (before after : List Cpmap) (m : Cpmap)
    → any (covers er) before ≡ false
    → (ac_dw_weight er before ≡ 16)
      × (ac_dw_weight er (before ++ (m ∷ after))
          ≡ (if covers er m then m.dwtime * 100 / 60 else ac_dw_weight er after))
unfolding ac_dw_weight
ac_dw_weight_first er [] after m h = (refl, refl)
ac_dw_weight_first er (b ∷ before) after m h =
    let ih = ac_dw_weight_first er before after m (ground arith) in
    elim (Bool-cases (covers er b)) [
      | inl e ↦ absurd (ground arith)
      | inr e ↦ (rw e ih.0, rw e ih.1)
    ]
