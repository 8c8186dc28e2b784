-- ===== src/Garbage/Pending.antt =====
-- About what is pending and what was freed, and the age of the entries.
use oscam_vdr.Base.{
  ℕ, ◌+◌, ◌≡◌, refl, ap, ap₂, true, false, List, [], ◌∷◌, ◌==◌, ltb, leb, if◌then◌else◌, Bool-cases,
  inl, inr, arith,
}
use oscam_vdr.Garbage.{
  Entry, Collector, sweep, sweep_buckets, garbage_collector, drain, drain_buckets,
  stop_garbage_collector,
}

-- How often an address is among those freed, in a bucket, and in the buckets.
abbrev pub freed_times : ℕ → List ℕ → ℕ
freed_times a [] = 0
freed_times a (x ∷ xs) = (if x == a then 1 else 0) + freed_times a xs

abbrev pub pending_in : ℕ → List Entry → ℕ
pending_in a [] = 0
pending_in a (e ∷ es) = (if e.data_address == a then 1 else 0) + pending_in a es

abbrev pub pending : ℕ → List (List Entry) → ℕ
pending a [] = 0
pending a (b ∷ bs) = pending_in a b + pending a bs

-- How often an address was taken on.
abbrev pub taken : ℕ → Collector → ℕ
taken a c = pending a c.buckets + freed_times a c.freed

sweep_taken :
    (now a : ℕ) (es : List Entry) (freed : List ℕ)
    → pending_in a (sweep now es freed).0 + freed_times a (sweep now es freed).1
      ≡ pending_in a es + freed_times a freed
unfolding sweep
sweep_taken now a [] freed = refl
sweep_taken now a (e ∷ es) freed = elim (Bool-cases (ltb (e.time + 5) now)) [
  | inl h ↦ rw h (omega (arith, sweep_taken now a es (e.data_address ∷ freed)))
  | inr h ↦ rw h (omega (arith, sweep_taken now a es freed))
]

sweep_buckets_taken :
    (clock : ℕ → ℕ) (i a : ℕ) (bs : List (List Entry)) (freed : List ℕ)
    → pending a (sweep_buckets clock i bs freed).0
        + freed_times a (sweep_buckets clock i bs freed).1
      ≡ pending a bs + freed_times a freed
unfolding sweep_buckets
sweep_buckets_taken clock i a [] freed = refl
sweep_buckets_taken clock i a (b ∷ bs) freed = omega (
  arith,
  sweep_buckets_taken clock (i + 1) a bs (sweep (clock i) b freed).1,
  sweep_taken (clock i) a b freed,
)

drain_taken :
    (a : ℕ) (es : List Entry) (freed : List ℕ)
    → freed_times a (drain es freed) ≡ pending_in a es + freed_times a freed
unfolding drain
drain_taken a [] freed = omega arith
drain_taken a (e ∷ es) freed = omega (arith, drain_taken a es (e.data_address ∷ freed))

drain_buckets_taken :
    (a : ℕ) (bs : List (List Entry)) (freed : List ℕ)
    → (pending a (drain_buckets bs freed).0 ≡ 0)
      × (freed_times a (drain_buckets bs freed).1 ≡ pending a bs + freed_times a freed)
unfolding drain_buckets
drain_buckets_taken a [] freed = (refl, omega arith)
drain_buckets_taken a (b ∷ bs) freed =
    let ih = drain_buckets_taken a bs (drain b freed) in
    (omega (arith, ih.0), omega (arith, ih.1, drain_taken a b freed))

-- A round of the collector and its stop keep the number of times that each address is pending or
-- was freed: what leaves a bucket is freed, and once. Behind the stop of an active collector
-- nothing is pending.
pub garbage_taken :
    (clock : ℕ → ℕ) (c : Collector) (a : ℕ)
    → (taken a (garbage_collector clock c) ≡ taken a c)
      × (taken a (stop_garbage_collector c) ≡ taken a c)
      × ((if c.is_active then pending a (stop_garbage_collector c).buckets else 0) ≡ 0)
unfolding garbage_collector stop_garbage_collector
garbage_taken clock c a = elim (Bool-cases c.is_active) [
  | inl h ↦
      let d = drain_buckets_taken a c.buckets c.freed in
      rw h (sweep_buckets_taken clock 0 a c.buckets c.freed, omega (arith, d.0, d.1), d.0)
  | inr h ↦ rw h (refl, refl, refl)
]

-- The entries of a bucket that are at most five seconds old, and those of all buckets.
abbrev pub young : ℕ → List Entry → List Entry
young now [] = []
young now (e ∷ es) = if leb now (e.time + 5) then e ∷ young now es else young now es

abbrev pub young_buckets : (ℕ → ℕ) → ℕ → List (List Entry) → List (List Entry)
young_buckets clock i [] = []
young_buckets clock i (b ∷ bs) = young (clock i) b ∷ young_buckets clock (i + 1) bs

sweep-young : (now : ℕ) (es : List Entry) (freed : List ℕ) → (sweep now es freed).0 ≡ young now es
unfolding sweep
sweep-young now [] freed = refl
sweep-young now (e ∷ es) freed = elim (Bool-cases (ltb (e.time + 5) now)) [
  | inl h ↦
      let k : leb now (e.time + 5) ≡ false = ground arith in
      rw (h, k) (sweep-young now es (e.data_address ∷ freed))
  | inr h ↦
      let k : leb now (e.time + 5) ≡ true = ground arith in
      rw (h, k) (ap (λ (r : List Entry). e ∷ r) (sweep-young now es freed))
]

sweep_buckets-young :
    (clock : ℕ → ℕ) (i : ℕ) (bs : List (List Entry)) (freed : List ℕ)
    → (sweep_buckets clock i bs freed).0 ≡ young_buckets clock i bs
unfolding sweep_buckets
sweep_buckets-young clock i [] freed = refl
sweep_buckets-young clock i (b ∷ bs) freed =
    ap₂ ◌∷◌ (sweep-young (clock i) b freed)
      (sweep_buckets-young clock (i + 1) bs (sweep (clock i) b freed).1)

-- A round of an active collector leaves in every bucket, in their order, exactly the entries that
-- are at most five seconds old when the bucket is swept.
pub garbage_collector-young :
    (clock : ℕ → ℕ) (c : Collector)
    → c.is_active ≡ true
    → (garbage_collector clock c).buckets ≡ young_buckets clock 0 c.buckets
unfolding garbage_collector
garbage_collector-young clock c h = rw h (sweep_buckets-young clock 0 c.buckets c.freed)
