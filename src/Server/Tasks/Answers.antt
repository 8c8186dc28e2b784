-- ===== src/Server/Tasks/Answers.antt =====
-- oscam.c: the answer of a reader on its way to the clients that wait for it.
use oscam_vdr.Base.{
  ℕ, ◌+◌, ◌%◌, Bool, true, false, ◌&&◌, ◌||◌, not, Option, none, some, List, [], ◌∷◌, ◌==◌, ltb,
  leb, if◌then◌else◌, get_elem?, set,
}
use oscam_vdr.Server.{
  Request, e_found, e_cache2, e_emu, e_notfound, e_99, e_rdr_notfound, e_rdr_found, e2_wrong_chksum,
}
use oscam_vdr.Server.Cache.{same_bytes, store_cw_in_cache}
use oscam_vdr.Server.Tasks.{Hub, piped, emit, send_reader_stat, send_dcw, distribute_ecm}

-- `ll_remove(er->matching_rdr, rdr)`
abbrev pub remove_reader : Option ℕ → List ℕ → List ℕ
remove_reader rdr [] = []
remove_reader none (r ∷ rs) = r ∷ rs
remove_reader (some x) (r ∷ rs) =
    let rest = remove_reader (some x) rs in if r == x then rest else r ∷ rest

-- `&cl->ecmtask[i]`; none out of range.
unfoldable pub task_at : ℕ → ℕ → Hub → Option Request
task_at k i s = elim (get_elem? s.clients k) [
  | none ↦ none
  | some cl ↦ elim cl.ecmtask [ none ↦ none | some tasks ↦ get_elem? tasks i ]
]

unfoldable pub put_task : ℕ → ℕ → Request → Hub → Hub
put_task k i t s = elim (get_elem? s.clients k) [
  | none ↦ s
  | some cl ↦ elim cl.ecmtask [
    | none ↦ s
    | some tasks ↦ record s {
      clients = set s.clients k (record cl { ecmtask = some (set tasks i t) });
    }
  ]
]

-- The answer is for another ECM than the one that the task has by now.
abbrev pub is_obsolete : Request → Request → Bool
is_obsolete er ert =
    (not (er.caid == ert.caid) && not (er.ocaid == ert.ocaid))
    || not (same_bytes er.ecmd5 ert.ecmd5)

-- What a reader has found.
abbrev pub found_task : Request → Request → Request
found_task er ert = record ert {
  selected_reader = er.selected_reader;
  rc = if er.rc == e_cache2 || er.rc == e_emu then er.rc else e_found;
  rc_ex = 0;
  cw = er.cw;
}

-- What a reader has not found, and which readers are left.
abbrev pub missed_task : Request → Request → Request
missed_task er ert = record ert {
  selected_reader = er.selected_reader;
  rc_ex = er.rc_ex;
  matching_rdr = remove_reader er.selected_reader ert.matching_rdr;
}

-- `send_dcw(cl, &cl->ecmtask[i])`, once the task is as `ert`.
unfoldable pub answer_task : ℕ → ℕ → Request → Hub → Request × Hub
answer_task k i ert s = let r = send_dcw k ert (put_task k i ert s) in (r.0, put_task k i r.0 r.1)

module _ (grp_of : ℕ → ℕ) where
  -- The end of `chk_dcw` for a task that has its answer. None where the code reads the group of
  -- the reader through NULL.
  unfoldable pub finish : ℕ → Request → Request → Hub → Option Hub
  finish k er ert s =
      let r = answer_task k er.cpti ert s in
      elim r.0.selected_reader [
        | none ↦ none
        | some rdr ↦ some (
            distribute_ecm er (grp_of rdr) (if ltb r.0.rc e_notfound then e_cache2 else r.0.rc) r.1)
      ]

  -- The end for a task that no reader is left for.
  unfoldable pub miss_last : ℕ → ℕ → Request → Request → Hub → Option Hub
  miss_last now k er gone s = elim er.selected_reader [
    | none ↦ none
    | some rdr ↦ elim (store_cw_in_cache now gone (grp_of rdr) e_notfound s.cache) [
      | none ↦ none
      | some cache ↦ finish k er gone (record s { cache = cache })
    ]
  ]

  -- The branch of a reader that has not found it.
  unfoldable pub miss : ℕ → ℕ → Request → Request → Hub → Option Hub
  miss now k er ert s =
      let t = missed_task er ert in
      elim t.matching_rdr [
        | (_ ∷ _) ↦ some (
            send_reader_stat er.selected_reader er e_notfound
              (put_task k er.cpti (record t { selected_reader = none }) s))
        | [] ↦ miss_last now k er (record t { rc = e_notfound }) s
      ]

  -- `chk_dcw` for the task `ert`.
  unfoldable pub chk_task : ℕ → ℕ → Request → Request → Hub → Option Hub
  chk_task now k er ert s =
      if ltb ert.rc e_99
      then some (
          send_reader_stat er.selected_reader er
            (if leb er.rc e_rdr_notfound then e_notfound else e_found) s)
      else if is_obsolete er ert
      then some s
      else if leb e_rdr_found er.rc
      then finish k er (found_task er ert) s
      else miss now k er ert s

  -- `cl` is the client `k`, and `now` the time of the store. None where the code reads out of
  -- range, through NULL or what was freed.
  unfoldable pub chk_dcw : ℕ → ℕ → Request → Hub → Option Hub
  chk_dcw now k er s = elim (get_elem? s.clients k) [
    | none ↦ some s
    | some cl ↦ elim cl.ecmtask [
      | none ↦ some s
      | some tasks ↦ elim (get_elem? tasks er.cpti) [
        | none ↦ none
        | some ert ↦ chk_task now k er ert s
      ]
    ]
  ]

-- The check sum of three bytes.
abbrev pub sum_of : ℕ → ℕ → ℕ → ℕ
sum_of a b c = (a + b + c) % 256

-- The loop of `write_ecm_answer`, over the groups of four bytes; none where a wrong sum ends it.
unfoldable pub mend : Bool → List ℕ → List ℕ × Bool
mend dropbadcws (a ∷ b ∷ c ∷ d ∷ rest) =
    let tail = mend dropbadcws rest in
    if d == sum_of a b c
    then (a ∷ b ∷ c ∷ d ∷ tail.0, tail.1)
    else if dropbadcws
    then (a ∷ b ∷ c ∷ d ∷ rest, false)
    else (a ∷ b ∷ c ∷ sum_of a b c ∷ tail.0, tail.1)
mend dropbadcws cw = (cw, true)

-- The request, and whether the reader's answer is bad.
unfoldable pub mend_request : Bool → Request → Request
mend_request dropbadcws er =
    let r = mend dropbadcws er.cw in
    if r.1
    then record er { cw = r.0 }
    else record er { cw = r.0; rc = e_rdr_notfound; rc_ex = e2_wrong_chksum }

-- A reader and its group; `logCWtoFile` is left out.
unfoldable pub write_ecm_answer : ℕ → ℕ → ℕ → Bool → Request → Hub → Option (Request × Hub)
write_ecm_answer now reader grp dropbadcws er s =
    let er1 = record (mend_request dropbadcws er) {
      selected_reader = some reader;
      caid = er.ocaid;
    } in
    elim (if er1.rc == e_rdr_found
      then store_cw_in_cache now er1 grp e_found s.cache
      else some s.cache) [
        | none ↦ none
        | some cache ↦
            let s1 = record s { cache = cache } in
            some (er1, elim er1.client [ none ↦ s1 | some k ↦ emit (piped k er1) s1 ])
      ]
