-- ===== src/AntiCascade/Requests.antt =====
-- oscam-ac.c, `ac_dw_weight` and `ac_chk`: what a request adds to the weight of a client, and the
-- fake answer of one that is denied. Writing to the log and sleeping are left out.
pub mod Weight
use oscam_vdr.Base.{
  ℕ, ◌+◌, ◌*◌, ◌/◌, ◌%◌, Bool, true, false, ◌&&◌, ◌||◌, not, List, [], ◌∷◌, ◌==◌, leb, nonzero,
  if◌then◌else◌,
}
use oscam_vdr.AntiCascade.{Acasc, Cpmap, Config, AcClient}

-- What `ac_chk` reads and writes of a request.
pub record AcRequest : Type 0 where
  pub caid : ℕ
  pub prid : ℕ
  pub srvid : ℕ
  pub chid : ℕ
  pub ecmd5 : List ℕ
  pub rc : ℕ
  pub rc_ex : ℕ

abbrev pub e_notfound : ℕ
e_notfound = 4

abbrev pub e_fake : ℕ
e_fake = 7

-- 0 in an entry stands for any value.
abbrev pub covers : AcRequest → Cpmap → Bool
covers er m =
    (m.caid == 0 || m.caid == er.caid)
    && ((m.provid == 0 || m.provid == er.prid)
        && ((m.sid == 0 || m.sid == er.srvid) && (m.chid == 0 || m.chid == er.chid)))

-- The first entry that covers the request; 16 stands for ten seconds.
unfoldable pub ac_dw_weight : AcRequest → List Cpmap → ℕ
ac_dw_weight er [] = 16
ac_dw_weight er (m ∷ ms) = if covers er m then m.dwtime * 100 / 60 else ac_dw_weight er ms

-- `memcmp(a, b, CS_ECMSTORESIZE) == 0`
unfoldable pub same_md5 : List ℕ → List ℕ → Bool
same_md5 [] [] = true
same_md5 [] (y ∷ ys) = false
same_md5 (x ∷ xs) [] = false
same_md5 (x ∷ xs) (y ∷ ys) = x == y && same_md5 xs ys

-- The client's counters, the request, and the last ECM that was counted (`ac_ecmd5`).
pub record Checked : Type 0 where
  pub acasc : Acasc
  pub request : AcRequest
  pub ac_ecmd5 : List ℕ

-- A bit field of 15 bits.
abbrev pub u15 : ℕ → ℕ
u15 n = n % 32768

-- At level 1, behind the answer.
unfoldable pub count_answer : Config → Acasc → AcRequest → List ℕ → Checked
count_answer cfg acasc er md5 =
    let count = if er.rc == e_fake then u15 (acasc.ac_count + 1) else acasc.ac_count in
    let acasc' = record acasc { ac_count = count } in
    if leb e_notfound er.rc
    then record { acasc = acasc'; request = er; ac_ecmd5 = md5 }
    else if same_md5 md5 er.ecmd5
    then record { acasc = acasc'; request = er; ac_ecmd5 = md5 }
    else record {
      acasc = record acasc { ac_count = u15 (count + ac_dw_weight er cfg.cpmap) };
      request = er;
      ac_ecmd5 = er.ecmd5;
    }

-- At any other level, before the answer.
unfoldable pub fake_answer : ℕ → Acasc → AcRequest → List ℕ → Checked
fake_answer penalty acasc er md5 = record {
  acasc = acasc;
  request =
      if acasc.ac_deny && (nonzero penalty && not (penalty == 3))
      then record er { rc = e_fake; rc_ex = 0 }
      else er;
  ac_ecmd5 = md5;
}

-- `penalty` is that of the client's account.
unfoldable pub ac_chk : Config → AcClient → ℕ → AcRequest → ℕ → List ℕ → Checked
unfolding count_answer fake_answer
ac_chk cfg cl penalty er level md5 =
    if not (nonzero cl.ac_limit) || not cfg.ac_enabled
    then record { acasc = cl.acasc; request = er; ac_ecmd5 = md5 }
    else if level == 1
    then count_answer cfg cl.acasc er md5
    else fake_answer penalty cl.acasc er md5
