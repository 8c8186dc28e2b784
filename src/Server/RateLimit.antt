-- ===== src/Server/RateLimit.antt =====
-- oscam-reader.c, the rate limit in `reader_get_ecm`: a card is asked for ECMs of a number of
-- services at most.
pub mod Granted
use oscam_vdr.Base.{
  ℕ, ◌-◌, Bool, true, false, Option, none, some, List, [], ◌∷◌, ◌==◌, ltb, if◌then◌else◌,
}

-- `struct ecmrl`; `last` is none for -1.
pub record Slot : Type 0 where
  pub last : Option ℕ
  pub srvid : ℕ

-- A place that has the service is used again; none without one.
unfoldable pub use_service : ℕ → ℕ → List Slot → Option (List Slot)
use_service now srvid [] = none
use_service now srvid (s ∷ slots) =
    let rest = use_service now srvid slots in
    if s.srvid == srvid
    then some (record { last = some now; srvid = srvid } ∷ slots)
    else (elim rest [ none ↦ none | some changed ↦ some (s ∷ changed) ])

-- `(last == -1) || (now - last > ratelimitseconds)`
abbrev pub is_free : ℕ → ℕ → Option ℕ → Bool
is_free now seconds none = true
is_free now seconds (some last) = ltb seconds (now - last)

-- The first free place is taken; none without one.
unfoldable pub use_space : ℕ → ℕ → ℕ → List Slot → Option (List Slot)
use_space now seconds srvid [] = none
use_space now seconds srvid (s ∷ slots) =
    let rest = use_space now seconds srvid slots in
    if is_free now seconds s.last
    then some (record { last = some now; srvid = srvid } ∷ slots)
    else (elim rest [ none ↦ none | some changed ↦ some (s ∷ changed) ])

-- The first `ratelimitecm` places of `rlecmh`, after a request for a service; none if it is dropped.
unfoldable pub limit_ecm : ℕ → ℕ → ℕ → List Slot → Option (List Slot)
limit_ecm now seconds srvid slots = elim (use_service now srvid slots) [
  | some changed ↦ some changed
  | none ↦ use_space now seconds srvid slots
]

-- The places after requests, each with its time and its service.
unfoldable pub limit_all : ℕ → List (ℕ × ℕ) → List Slot → List Slot
limit_all seconds [] slots = slots
limit_all seconds (r ∷ rs) slots = elim (limit_ecm r.0 seconds r.1 slots) [
  | none ↦ limit_all seconds rs slots
  | some changed ↦ limit_all seconds rs changed
]
