-- ===== src/Garbage/Placed.antt =====
-- About the buckets: which entry belongs where.
use oscam_vdr.Base.{
  ℕ, zero, suc, ◌+◌, ◌≤◌, ◌<◌, ◌≡◌, ◌≢◌, refl, ap, sym, ◌∙◌, Bool, false, ◌&&◌, ◌||◌, not, List, [],
  ◌∷◌, ◌==◌, ==_iff, ltb, if◌then◌else◌, any, get_or, set, replicate, length, length-set,
  Bool-cases, inl, inr, arith,
}
use mathlib.Core.Path.{subst}
use oscam_vdr.Garbage.{
  Entry, Collector, hash_buckets, bucket_of, add_garbage, sweep, sweep_buckets, garbage_collector,
  start_garbage_collector, drain, drain_buckets, stop_garbage_collector,
}
use oscam_vdr.Garbage.Pending.{pending_in, pending, taken}

abbrev pub is_in : ℕ → List Entry → Bool
is_in a es = any (λ (e : Entry). e.data_address == a) es

abbrev pub InBucket : ℕ → List Entry → Type 0
InBucket i [] = Unit
InBucket i (e ∷ es) =
    (bucket_of e.data_address ≡ i) × (is_in e.data_address es ≡ false) × InBucket i es

abbrev pub ArePlaced : ℕ → List (List Entry) → Type 0
ArePlaced i [] = Unit
ArePlaced i (b ∷ bs) = InBucket i b × ArePlaced (i + 1) bs

pub record IsPlaced (c : Collector) : Type 0 where
  pub sixteen : length c.buckets ≡ hash_buckets
  pub placed : ArePlaced 0 c.buckets

is_in-pending_in : (a : ℕ) (es : List Entry) → is_in a es ≡ not (pending_in a es == 0)
is_in-pending_in a [] = refl
is_in-pending_in a (e ∷ es) = ground (arith, is_in-pending_in a es)

not_in : (a : ℕ) (es : List Entry) → is_in a es ≡ false → pending_in a es ≡ 0
not_in a [] h = refl
not_in a (e ∷ es) h = ground (arith, not_in a es)

pending_in_once : (i a : ℕ) (es : List Entry) → InBucket i es → pending_in a es ≤ 1
pending_in_once i a [] h = omega arith
pending_in_once i a (e ∷ es) h = elim (Bool-cases (e.data_address == a)) [
  | inl q ↦ rw q (
      omega (
        arith,
        not_in (e.data_address) es h.1,
        ap (λ (t : ℕ). pending_in t es) ((==_iff e.data_address a).0 q),
      ))
  | inr q ↦ rw q (omega (arith, pending_in_once i a es h.2))
]

pending_in_other :
    (i a : ℕ) (es : List Entry) → bucket_of a ≢ i → InBucket i es → pending_in a es ≡ 0
pending_in_other i a [] n h = refl
pending_in_other i a (e ∷ es) n h = elim (Bool-cases (e.data_address == a)) [
  | inl q ↦ absurd (n (ap bucket_of (sym ((==_iff e.data_address a).0 q)) ∙ h.0))
  | inr q ↦ rw q (omega (arith, pending_in_other i a es n h.2))
]

pending_before :
    (i a : ℕ) (bs : List (List Entry)) → bucket_of a < i → ArePlaced i bs → pending a bs ≡ 0
pending_before i a [] n h = refl
pending_before i a (b ∷ bs) n h = omega (
  arith,
  pending_in_other i a b (λ e. omega arith) h.0,
  pending_before (i + 1) a bs (omega arith) h.1,
)

-- What is pending of an address is in its bucket.
pending_home :
    (i k a : ℕ) (bs : List (List Entry))
    → bucket_of a ≡ i + k
    → ArePlaced i bs
    → pending a bs ≡ pending_in a (get_or bs k [])
pending_home i k a [] e h = refl
pending_home i zero a (b ∷ bs) e h = omega (arith, pending_before (i + 1) a bs (omega arith) h.1)
pending_home i (suc k) a (b ∷ bs) e h = omega (
  arith,
  pending_in_other i a b (λ q. omega arith) h.0,
  pending_home (i + 1) k a bs (omega arith) h.1,
)

get_or-InBucket :
    (i j k : ℕ) (bs : List (List Entry)) → j ≡ i + k → ArePlaced i bs → InBucket j (get_or bs k [])
get_or-InBucket i j k [] e h = tt
get_or-InBucket i j zero (b ∷ bs) e h =
    let q : i ≡ j = omega arith in subst (λ (t : ℕ). InBucket t b) q h.0
get_or-InBucket i j (suc k) (b ∷ bs) e h = get_or-InBucket (i + 1) j k bs (omega arith) h.1

set-ArePlaced :
    (i j k : ℕ) (bs : List (List Entry)) (b : List Entry)
    → j ≡ i + k
    → ArePlaced i bs
    → InBucket j b
    → ArePlaced i (set bs k b)
set-ArePlaced i j k [] b e h p = tt
set-ArePlaced i j zero (c ∷ bs) b e h p =
    let q : j ≡ i = omega arith in (subst (λ (t : ℕ). InBucket t b) q p, h.1)
set-ArePlaced i j (suc k) (c ∷ bs) b e h p =
    (h.0, set-ArePlaced (i + 1) j k bs b (omega arith) h.1 p)

-- An address is never pending twice.
pub pending_once : (c : Collector) (a : ℕ) → IsPlaced c → pending a c.buckets ≤ 1
pending_once c a h = omega (
  arith,
  pending_home 0 (bucket_of a) a c.buckets (omega arith) h.placed,
  pending_in_once (bucket_of a) a (get_or c.buckets (bucket_of a) [])
      (get_or-InBucket 0 (bucket_of a) (bucket_of a) c.buckets (omega arith) h.placed),
)

sweep-is_in :
    (now a : ℕ) (es : List Entry) (freed : List ℕ)
    → is_in a es ≡ false
    → is_in a (sweep now es freed).0 ≡ false
unfolding sweep
sweep-is_in now a [] freed h = refl
sweep-is_in now a (e ∷ es) freed h = elim (Bool-cases (ltb (e.time + 5) now)) [
  | inl q ↦ rw q (sweep-is_in now a es (e.data_address ∷ freed) (ground arith))
  | inr q ↦ rw q (ground (arith, sweep-is_in now a es freed))
]

sweep-InBucket :
    (now i : ℕ) (es : List Entry) (freed : List ℕ)
    → InBucket i es
    → InBucket i (sweep now es freed).0
unfolding sweep
sweep-InBucket now i [] freed h = tt
sweep-InBucket now i (e ∷ es) freed h = elim (Bool-cases (ltb (e.time + 5) now)) [
  | inl q ↦ rw q (sweep-InBucket now i es (e.data_address ∷ freed) h.2)
  | inr q ↦
      rw q (h.0, sweep-is_in now e.data_address es freed h.1, sweep-InBucket now i es freed h.2)
]

sweep_buckets-ArePlaced :
    (clock : ℕ → ℕ) (i j : ℕ) (bs : List (List Entry)) (freed : List ℕ)
    → ArePlaced j bs
    → (length (sweep_buckets clock i bs freed).0 ≡ length bs)
      × ArePlaced j (sweep_buckets clock i bs freed).0
unfolding sweep_buckets
sweep_buckets-ArePlaced clock i j [] freed h = (refl, tt)
sweep_buckets-ArePlaced clock i j (b ∷ bs) freed h =
    let ih = sweep_buckets-ArePlaced clock (i + 1) (j + 1) bs (sweep (clock i) b freed).1 h.1 in
    (omega (arith, ih.0), (sweep-InBucket (clock i) j b freed h.0, ih.1))

drain_buckets-ArePlaced :
    (j : ℕ) (bs : List (List Entry)) (freed : List ℕ)
    → (length (drain_buckets bs freed).0 ≡ length bs) × ArePlaced j (drain_buckets bs freed).0
unfolding drain_buckets
drain_buckets-ArePlaced j [] freed = (refl, tt)
drain_buckets-ArePlaced j (b ∷ bs) freed =
    let ih = drain_buckets-ArePlaced (j + 1) bs (drain b freed) in (omega (arith, ih.0), (tt, ih.1))

add_garbage-IsPlaced : (now a : ℕ) (c : Collector) → IsPlaced c → IsPlaced (add_garbage now a c)
unfolding add_garbage
add_garbage-IsPlaced now a c h = elim (Bool-cases (a == 0)) [
  | inl q ↦ rw q h
  | inr q ↦ rw q (elim (Bool-cases (not c.is_active || c.debug)) [
    | inl d ↦ rw d (record { sixteen = h.sixteen; placed = h.placed })
    | inr d ↦ rw d (elim (Bool-cases (is_in a (get_or c.buckets (bucket_of a) []))) [
      | inl e ↦ rw e h
      | inr e ↦ rw e (record {
        sixteen = length-set c.buckets (bucket_of a) _ ∙ h.sixteen;
        placed = set-ArePlaced 0 (bucket_of a) (bucket_of a) c.buckets _ (omega arith) h.placed (
          refl,
          e,
          get_or-InBucket 0 (bucket_of a) (bucket_of a) c.buckets (omega arith) h.placed,
        );
      })
    ])
  ])
]

pub replicate-ArePlaced : (n i : ℕ) → ArePlaced i (replicate n [])
replicate-ArePlaced zero i = tt
replicate-ArePlaced (suc n) i = (tt, replicate-ArePlaced n (i + 1))

-- The buckets stay sixteen, with every entry in the bucket of its address and no address twice,
-- when memory is given up, when the collector makes a round, and when it is started and stopped.
pub garbage-IsPlaced :
    (now a : ℕ) (clock : ℕ → ℕ) (debug : Bool) (c : Collector)
    → IsPlaced c
    → IsPlaced (add_garbage now a c)
      × IsPlaced (garbage_collector clock c)
      × IsPlaced (start_garbage_collector debug c)
      × IsPlaced (stop_garbage_collector c)
unfolding garbage_collector start_garbage_collector stop_garbage_collector
garbage-IsPlaced now a clock debug c h =
    let swept = sweep_buckets-ArePlaced clock 0 0 c.buckets c.freed h.placed in
    let drained = drain_buckets-ArePlaced 0 c.buckets c.freed in
    (
      add_garbage-IsPlaced now a c h,
      elim (Bool-cases c.is_active) [
        | inl q ↦ rw q (record { sixteen = swept.0 ∙ h.sixteen; placed = swept.1 })
        | inr q ↦ rw q (record { sixteen = h.sixteen; placed = h.placed })
      ],
      record { sixteen = refl; placed = replicate-ArePlaced 16 0 },
      elim (Bool-cases c.is_active) [
        | inl q ↦ rw q (record { sixteen = drained.0 ∙ h.sixteen; placed = drained.1 })
        | inr q ↦ rw q (record { sixteen = h.sixteen; placed = h.placed })
      ],
    )

pending-set :
    (a k : ℕ) (bs : List (List Entry)) (b : List Entry)
    → k < length bs
    → pending a (set bs k b) + pending_in a (get_or bs k []) ≡ pending a bs + pending_in a b
pending-set a k [] b h = absurd (omega arith)
pending-set a zero (c ∷ bs) b h = omega arith
pending-set a (suc k) (c ∷ bs) b h = omega (arith, pending-set a k bs b (omega arith))

-- Memory that is given up is taken on once: it is freed at once where no collector is active or it
-- is being debugged, and else becomes pending, unless it is already. NULL is ignored.
pub taken-add_garbage :
    (now given a : ℕ) (c : Collector)
    → IsPlaced c
    → taken a (add_garbage now given c)
      ≡ (if given == a
            && (not (given == 0) && ((not c.is_active || c.debug) || pending given c.buckets == 0))
          then 1
          else 0)
        + taken a c
unfolding add_garbage
taken-add_garbage now given a c h =
    let home = get_or c.buckets (bucket_of given) [] in
    ground (
      arith,
      is_in-pending_in given home,
      pending_home 0 (bucket_of given) given c.buckets (omega arith) h.placed,
      pending-set a (bucket_of given) c.buckets (record { time = now; data_address = given } ∷ home)
          (omega (arith, h.sixteen)),
    )
