-- ===== src/Server/Tasks/Submit.antt =====
-- oscam.c, the second half of `get_cw`, with `lb_mode` 0: the readers that match, the cache, and
-- the first readers that are asked. The counts of readers, which are for the log, are left out.
pub mod Readers
pub mod Once
use oscam_vdr.Base.{
  ℕ, Bool, true, false, Option, none, some, List, [], ◌∷◌, ◌++◌, ◌==◌, ltb, nonzero, if◌then◌else◌,
}
use oscam_vdr.Server.{Request, e_notfound, e_99, e_unhandled}
use oscam_vdr.Server.Cache.{Cache, check_and_store_ecmcache}
use oscam_vdr.Server.Tasks.{Hub, same_pointer}
use oscam_vdr.Server.Tasks.Answers.{put_task, answer_task}
use oscam_vdr.Server.Tasks.Pending.{Waits, request_cw}

abbrev pub e2_group : ℕ
e2_group = 1

-- `if (er->fallback == NULL) er->fallback = ...;`
abbrev pub first_fallback : Option ℕ → ℕ → Option ℕ
first_fallback none r = some r
first_fallback (some f) r = some f

-- The loop over the active readers: `matches` is `matching_reader`, `is_fallback` the field
-- `fallback`. The list, and the reader at the node `er->fallback`.
unfoldable pub match_readers :
    (ℕ → Bool) → (ℕ → Bool) → List ℕ → List ℕ → Option ℕ → List ℕ × Option ℕ
match_readers matches is_fallback [] found fallback = (found, fallback)
match_readers matches is_fallback (r ∷ rs) found fallback =
    if matches r
    then (if is_fallback r
        then match_readers matches is_fallback rs (found ++ (r ∷ [])) (first_fallback fallback r)
        else match_readers matches is_fallback rs (r ∷ found) fallback)
    else match_readers matches is_fallback rs found fallback

-- `er->matching_rdr->initial == er->fallback`: only fallback readers, or no reader.
abbrev pub starts_with : List ℕ → Option ℕ → Bool
starts_with [] fallback = same_pointer none fallback
starts_with (r ∷ rs) fallback = same_pointer (some r) fallback

-- The request with its readers.
unfoldable pub with_readers : (ℕ → Bool) → (ℕ → Bool) → List ℕ → Request → Request
with_readers matches is_fallback readers er =
    let r = match_readers matches is_fallback readers [] none in
    elim r.0 [
      | [] ↦ record er {
        matching_rdr = [];
        fallback = r.1;
        rc = e_notfound;
        rc_ex = if nonzero er.rc_ex then er.rc_ex else e2_group;
      }
      | (first ∷ others) ↦ record er {
        matching_rdr = first ∷ others;
        fallback = if starts_with (first ∷ others) r.1 then none else r.1;
      }
    ]

-- The end of `get_cw`, for a request with its readers, which is the task `i` of the client `k`.
unfoldable pub submit : Waits → ℕ → ℕ → ℕ → ℕ → Request → Hub → Hub
submit w now grp k i er s =
    let r =
      if er.rc == e_unhandled
      then check_and_store_ecmcache w.ctimeout now er grp s.cache
      else (s.cache, er, er.rc) in
    let er1 = record r.1 { rc = r.2 } in
    let s1 = record s { cache = r.0 } in
    if er1.rc == e_99
    then put_task k i er1 s1
    else if ltb er1.rc e_unhandled
    then (answer_task k i er1 s1).1
    else (let er2 = record er1 { rc_ex = 0 } in
        request_cw w er2 0 (if w.preferlocalcards then 1 else 0) (put_task k i er2 s1))
