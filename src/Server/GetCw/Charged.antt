-- ===== src/Server/GetCw/Charged.antt =====
-- About the tasks and answers of a client whose request goes through `get_cw`.
use oscam_vdr.Base.{ℕ, ◌+◌, ◌≡◌, sym, true, some, List, Option-cases, inl, inr}
use oscam_vdr.Access.{EcmRequest}
use oscam_vdr.Server.{Request}
use oscam_vdr.Server.Failban.{VBan}
use oscam_vdr.Server.Intake.{check_request}
use oscam_vdr.Server.Intake.Accepted.{Checked-cases}
use oscam_vdr.Server.GetCw.{
  Setup, merged, prepare, find_readers, get_cw, cw_outside, cw_exit, cw_done, added,
}
use oscam_vdr.Server.Tasks.{Hub, is_pending}
use oscam_vdr.Server.Tasks.Answers.{task_at}
use oscam_vdr.Server.Tasks.Charge.{owed, answers}
use oscam_vdr.Server.Tasks.Submit.{submit}
use oscam_vdr.Server.Tasks.Submit.Once.{charge-submit}

-- `get_cw`, unless it ends the thread of a banned client or reads outside an array, leaves for every
-- client the sum of its waiting tasks and of the answers it was given, whether the request is
-- refused, answered from the cache, sent to readers or finds none: it waits on, or is answered once.
pub charge-get_cw :
    (md5 : List ℕ → List ℕ) (st : Setup) (now curtime lastswitch grp j k i : ℕ) (bans : List VBan)
    (e : EcmRequest) (er old : Request) (s d : Hub)
    → task_at k i s ≡ some old
    → is_pending old ≡ true
    → get_cw md5 st now curtime lastswitch grp k i bans e er s ≡ cw_done d
    → owed j d + answers j d.output ≡ owed j s + answers j s.output
unfolding get_cw
charge-get_cw md5 st now curtime lastswitch grp j k i bans e er old s d at pending h =
    let checks =
      check_request st.len4caid st.sidtab st.ports st.ncd st.user now curtime lastswitch e in
    elim (Checked-cases checks) [
      | inl f ↦ absurd (let z : cw_outside ≡ cw_done d = rw (f, get_cw) at h in cc)
      | inr (inl f) ↦
          absurd (let z : cw_exit (added st now bans) ≡ cw_done d = rw (f, get_cw) at h in cc)
      | inr (inr ((e1, rc), f)) ↦ elim (Option-cases (prepare md5 st e1 (merged er e1 rc))) [
        | inl g ↦ absurd (let z : cw_outside ≡ cw_done d = rw (f, g, get_cw) at h in cc)
        | inr (er2, g) ↦
            let er3 = find_readers st e1 er2 in
            let q : cw_done (submit st.waits now grp k i er3 s) ≡ cw_done d =
              rw (f, g, get_cw) at h in
            let p : submit st.waits now grp k i er3 s ≡ d = cc in
            rw (sym p) (charge-submit st.waits now grp j k i er3 old s at pending)
      ]
    ]
