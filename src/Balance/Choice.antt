-- ===== src/Balance/Choice.antt =====
-- module-stat.c: the loop of `get_best_reader` that takes the best of the readers that may be asked.
pub mod Best
pub mod Order
use oscam_vdr.Base.{
  ℕ, zero, suc, ◌+◌, ◌-◌, Bool, true, false, ◌&&◌, ◌||◌, not, Option, none, some, List, [], ◌∷◌,
  ◌++◌, ltb, ◌==◌, nonzero, if◌then◌else◌,
}

-- `struct stat_value`, with what the loop asks of its reader: whether it is of the network, and
-- whether it is among `timeout_services`.
pub record StatValue : Type 0 where
  pub rdr : ℕ
  pub value : ℕ
  pub time : ℕ
  pub network : Bool
  pub timeout : Bool

-- How many readers may still be taken: local ones, others, fallbacks, and all but the fallbacks.
-- `nreaders` of 0 in the settings is -1 here, which no loop counts down to 0: it is none.
pub record Limits : Type 0 where
  pub nlocal_readers : ℕ
  pub nbest_readers : ℕ
  pub nfb_readers : ℕ
  pub nreaders : Option ℕ

-- The limits that the loop starts with.
abbrev pub start_limits : ℕ → ℕ → ℕ → Option ℕ → Limits
start_limits nlocal nbest nfb nreaders = record {
  nlocal_readers = if ltb nbest nlocal then nbest else nlocal;
  nbest_readers = if ltb nbest nlocal then 0 else nbest - nlocal;
  nfb_readers = nfb;
  nreaders = nreaders;
}

pub data Kind : Type 0 where
  primary : Kind
  fallback : Kind

-- A reader that was appended to `result`.
pub record Pick : Type 0 where
  pub chosen : StatValue
  pub kind : Kind

-- Whether the inner loop looks at a value at all.
abbrev pub eligible : ℕ → StatValue → Bool
eligible nlocal v = not (nonzero nlocal && v.network) && nonzero v.value

abbrev pub better : ℕ → StatValue → Option StatValue → Option StatValue
better nlocal v best =
    if eligible nlocal v
    then (elim best [ none ↦ some v | some b ↦ if ltb v.value b.value then some v else some b ])
    else best

-- The inner loop: the first of the lowest values.
abbrev pub best_of : ℕ → List StatValue → Option StatValue → Option StatValue
best_of nlocal [] best = best
best_of nlocal (v ∷ vs) best = best_of nlocal vs (better nlocal v best)

-- `best->value = 0;`: each reader has one value in the list.
abbrev pub taken : ℕ → List StatValue → List StatValue
taken rdr [] = []
taken rdr (v ∷ vs) = (if v.rdr == rdr then record v { value = 0 } else v) ∷ taken rdr vs

abbrev pub less_one : Option ℕ → Option ℕ
less_one none = none
less_one (some n) = some (n - 1)

-- `if (!ll_contains(timeout_services, best_rdri)) n--;`
abbrev pub count_down : StatValue → ℕ → ℕ
count_down best n = if best.timeout then n else n - 1

-- What is taken as, and the limits behind it; none where the loop breaks.
unfoldable pub take_best : Limits → StatValue → Option (Kind × Limits)
take_best lim best =
    if nonzero lim.nlocal_readers
    then some (
      primary,
      record lim {
        nlocal_readers = count_down best lim.nlocal_readers;
        nreaders = less_one lim.nreaders;
      },
    )
    else if nonzero lim.nbest_readers
    then some (
      primary,
      record lim {
        nbest_readers = count_down best lim.nbest_readers;
        nreaders = less_one lim.nreaders;
      },
    )
    else if nonzero lim.nfb_readers
    then some (fallback, record lim { nfb_readers = count_down best lim.nfb_readers })
    else none

abbrev pub no_more : Option ℕ → Bool
no_more none = false
no_more (some n) = n == 0

-- The loop in at most the given number of rounds, none where they do not suffice: the readers that
-- it appends to `result`, and the values that are left.
unfoldable pub choose : ℕ → Limits → List StatValue → Option (List Pick × List StatValue)
choose zero lim vs = none
choose (suc rounds) lim vs = elim (no_more lim.nreaders) [
  | true ↦ some ([], vs)
  | false ↦ elim (best_of lim.nlocal_readers vs none) [
    | none ↦ some ([], vs)
    | some best ↦ elim (take_best lim best) [
      | none ↦ some ([], vs)
      | some (kind, lim') ↦ elim (choose rounds lim' (taken best.rdr vs)) [
        | none ↦ none
        | some (picks, rest) ↦ some (record { chosen = best; kind = kind } ∷ picks, rest)
      ]
    ]
  ]
]
