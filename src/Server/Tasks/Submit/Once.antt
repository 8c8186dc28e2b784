-- ===== src/Server/Tasks/Submit/Once.antt =====
-- About how often the end of `get_cw` answers a request.
use oscam_vdr.Base.{
  ℕ, ◌+◌, ◌<◌, ◌≡◌, ap, ◌∙◌, true, false, some, ◌==◌, ltb, leb, if◌then◌else◌, Bool-cases, inl, inr,
  arith,
}
use oscam_vdr.Server.{Request, e_99, e_unhandled}
use oscam_vdr.Server.Cache.{check_and_store_ecmcache}
use oscam_vdr.Server.Tasks.{Hub, is_pending}
use oscam_vdr.Server.Tasks.Answers.{task_at, put_task}
use oscam_vdr.Server.Tasks.Charge.{
  owed, answers, charge, charge-answer_task, owed-put_task, put_task-output,
}
use oscam_vdr.Server.Tasks.Pending.{Waits, request_cw}
use oscam_vdr.Server.Tasks.Pending.Sums.{Alike-charge, request_readers-Alike}
use oscam_vdr.Server.Tasks.Submit.{submit}

charge-put_pending :
    (j k i : ℕ) (t old : Request) (s : Hub)
    → task_at k i s ≡ some old
    → is_pending old ≡ true
    → is_pending t ≡ true
    → charge j (put_task k i t s) ≡ charge j s
charge-put_pending j k i t old s h p q =
    let sum = owed-put_task j k i t old s h in
    omega (arith, rw (p, q) at sum, ap (answers j) (put_task-output k i t s))

pending_99 : (rc : ℕ) → (rc == e_99) ≡ true → leb e_99 rc ≡ true
pending_99 rc h = ground arith

below_99 : (rc : ℕ) → (rc == e_99) ≡ false → ltb rc e_unhandled ≡ true → rc < e_99
below_99 rc h k = ground arith

pending_above : (rc : ℕ) → ltb rc e_unhandled ≡ false → leb e_99 rc ≡ true
pending_above rc h = ground arith

-- A request that is sent on leaves for every client the sum of its waiting tasks and of the answers
-- it was given: it waits on, or is answered once.
pub charge-submit :
    (w : Waits) (now grp j k i : ℕ) (er old : Request) (s : Hub)
    → task_at k i s ≡ some old
    → is_pending old ≡ true
    → owed j (submit w now grp k i er s) + answers j (submit w now grp k i er s).output
      ≡ owed j s + answers j s.output
unfolding submit task_at
charge-submit w now grp j k i er old s h p =
    let r =
      if er.rc == e_unhandled
      then check_and_store_ecmcache w.ctimeout now er grp s.cache
      else (s.cache, er, er.rc) in
    let er1 = record r.1 { rc = r.2 } in
    let s1 = record s { cache = r.0 } in
    elim (Bool-cases (r.2 == e_99)) [
      | inl a ↦
          let q : is_pending er1 ≡ true = pending_99 r.2 a in
          rw (a, submit) (charge-put_pending j k i er1 old s1 h p q)
      | inr a ↦ elim (Bool-cases (ltb r.2 e_unhandled)) [
        | inl b ↦
            let q : r.2 < e_99 = below_99 r.2 a b in
            rw (a, b, submit) (charge-answer_task j k i er1 old s1 h p q)
        | inr b ↦
            let er2 = record er1 { rc_ex = 0 } in
            let q : is_pending er2 ≡ true = pending_above r.2 b in
            let s2 = put_task k i er2 s1 in
            let types = if w.preferlocalcards then 1 else 0 in
            rw (a, b, submit)
              (Alike-charge j s2 (request_cw w er2 0 types s2)
                  (request_readers-Alike w types er2 j _ s2)
                ∙ charge-put_pending j k i er2 old s1 h p q)
      ]
    ]
