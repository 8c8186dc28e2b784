-- ===== src/Server/Packets/Bounds.antt =====
-- About the loop over the descriptors of a Cryptoworks ECM.
use oscam_vdr.Base.{
  ℕ, zero, suc, ◌+◌, ◌≤◌, ◌<◌, ◌≡◌, ◌≢◌, refl, false, some, List, [], ◌∷◌, ◌==◌, ltb, get_elem?,
  length, Bool-cases, Option-cases, inl, inr, arith,
}
use oscam_vdr.Server.Packets.{Search, outside, descriptor, provider_loop}

get_elem?-in : (xs : List ℕ) (i : ℕ) → i < length xs → (x : ℕ) × (get_elem? xs i ≡ some x)
get_elem?-in [] i h = absurd (omega arith)
get_elem?-in (x ∷ xs) zero h = (x, refl)
get_elem?-in (x ∷ xs) (suc i) h = get_elem?-in xs i (omega arith)

descriptor-In :
    (ecm : List ℕ) (i : ℕ) (rest : Search)
    → 2 + i < length ecm
    → rest ≢ outside
    → descriptor ecm i rest ≢ outside
unfolding descriptor
descriptor-In ecm i rest h n =
    let (tag, t) = get_elem?-in ecm i (omega arith) in
    let (b, f) = get_elem?-in ecm (2 + i) h in
    elim (Bool-cases (tag == 0x83)) [
      | inl e ↦ rw (t, e, f, descriptor) (λ z. cc)
      | inr e ↦ rw (t, e, descriptor) n
    ]

-- A section that ends at least two bytes before the array does is read inside the array.
pub provider_loop-In :
    (fuel len : ℕ) (ecm : List ℕ) (i : ℕ)
    → suc len < length ecm
    → provider_loop fuel len ecm i ≢ outside
unfolding provider_loop
provider_loop-In zero len ecm i h = λ z. cc
provider_loop-In (suc fuel) len ecm i h = elim (Bool-cases (ltb i len)) [
  | inr e ↦ elim (Option-cases (get_elem? ecm (suc i))) [
    | inl n ↦ rw (n, e, provider_loop) (λ z. cc)
    | inr (d, n) ↦ rw (n, e, provider_loop) (λ z. cc)
  ]
  | inl e ↦
      let (d, n) = get_elem?-in ecm (suc i) (ground arith) in
      rw (n, e, provider_loop)
        (descriptor-In ecm i _ (ground arith) (provider_loop-In fuel len ecm (i + (d + 2)) h))
]

-- More fuel than the section is long makes no difference: every round goes two bytes on at least.
pub provider_loop-enough :
    (n m len : ℕ) (ecm : List ℕ) (i : ℕ)
    → len ≤ i + n
    → n ≤ m
    → provider_loop m len ecm i ≡ provider_loop n len ecm i
unfolding provider_loop
provider_loop-enough zero zero len ecm i h k = refl
provider_loop-enough zero (suc m) len ecm i h k =
    let e : ltb i len ≡ false = ground arith in
    elim (Option-cases (get_elem? ecm (suc i))) [
      | inl z ↦ rw (z, e, provider_loop) refl
      | inr (d, z) ↦ rw (z, e, provider_loop) refl
    ]
provider_loop-enough (suc n) zero len ecm i h k = absurd (omega arith)
provider_loop-enough (suc n) (suc m) len ecm i h k = elim (Option-cases (get_elem? ecm (suc i))) [
  | inl z ↦ rw (z, provider_loop) refl
  | inr (d, z) ↦
      let ih = provider_loop-enough n m len ecm (i + (d + 2)) (omega arith) (omega arith) in
      rw (z, ih, provider_loop) refl
]
