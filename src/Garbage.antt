-- ===== src/Garbage.antt =====
-- oscam-garbage.c: memory is freed some seconds after it was given up, since another thread may
-- still read it. `malloc` is taken to succeed, and the locks of the buckets are left out: an
-- operation on a bucket is one step.
pub mod Pending
pub mod Placed
mod Tests
use oscam_vdr.Base.{
  ℕ, ◌+◌, ◌/◌, ◌%◌, Bool, true, false, ◌||◌, not, List, [], ◌∷◌, ◌==◌, ltb, if◌then◌else◌, any,
  get_or, set, replicate,
}

-- `struct cs_garbage`; the address of the data, 0 for NULL.
pub record Entry : Type 0 where
  pub time : ℕ
  pub data_address : ℕ

-- The static variables, and the addresses that were passed to `free`, the last first.
pub record Collector : Type 0 where
  pub buckets : List (List Entry)
  pub is_active : Bool
  pub debug : Bool
  pub freed : List ℕ

abbrev pub hash_buckets : ℕ
hash_buckets = 16

abbrev pub bucket_of : ℕ → ℕ
bucket_of address = address / 16 % hash_buckets

-- `now` is what `time` returns.
unfoldable pub add_garbage : ℕ → ℕ → Collector → Collector
add_garbage now address c =
    if address == 0
    then c
    else if not c.is_active || c.debug
    then record c { freed = address ∷ c.freed }
    else (let entries = get_or c.buckets (bucket_of address) [] in
        if any (λ e. e.data_address == address) entries then c else record c {
          buckets =
              set c.buckets (bucket_of address)
                (record { time = now; data_address = address } ∷ entries);
        })

-- The loop over one bucket: the entries that stay, and what was freed.
unfoldable pub sweep : ℕ → List Entry → List ℕ → List Entry × List ℕ
sweep now [] freed = ([], freed)
sweep now (e ∷ es) freed =
    let is_old = ltb (e.time + 5) now in
    let rest = sweep now es (if is_old then e.data_address ∷ freed else freed) in
    (if is_old then rest.0 else e ∷ rest.0, rest.1)

-- The loop over the buckets from number `i` on, with the time when each is swept.
unfoldable pub sweep_buckets : (ℕ → ℕ) → ℕ → List (List Entry) → List ℕ → List (List Entry) × List ℕ
sweep_buckets clock i [] freed = ([], freed)
sweep_buckets clock i (b ∷ bs) freed =
    let swept = sweep (clock i) b freed in
    let rest = sweep_buckets clock (i + 1) bs swept.1 in (swept.0 ∷ rest.0, rest.1)

-- One round of the thread.
unfoldable pub garbage_collector : (ℕ → ℕ) → Collector → Collector
garbage_collector clock c =
    if c.is_active
    then (let swept = sweep_buckets clock 0 c.buckets c.freed in
        record c { buckets = swept.0; freed = swept.1 })
    else c

unfoldable pub start_garbage_collector : Bool → Collector → Collector
start_garbage_collector debug c = record {
  buckets = replicate hash_buckets [];
  is_active = true;
  debug = debug;
  freed = c.freed;
}

-- The loop of `stop_garbage_collector` over one bucket.
unfoldable pub drain : List Entry → List ℕ → List ℕ
drain [] freed = freed
drain (e ∷ es) freed = drain es (e.data_address ∷ freed)

unfoldable pub drain_buckets : List (List Entry) → List ℕ → List (List Entry) × List ℕ
drain_buckets [] freed = ([], freed)
drain_buckets (b ∷ bs) freed = let rest = drain_buckets bs (drain b freed) in ([] ∷ rest.0, rest.1)

unfoldable pub stop_garbage_collector : Collector → Collector
stop_garbage_collector c =
    if c.is_active
    then (let drained = drain_buckets c.buckets c.freed in
        record c { buckets = drained.0; is_active = false; freed = drained.1 })
    else c
