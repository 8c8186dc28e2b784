-- ===== src/Convert/Address/Ranges.antt =====
-- About `check_ip`: the ranges as intervals.
use oscam_vdr.Base.{
  ℕ, ◌≤◌, ◌≡◌, ◌↔◌, refl, Bool, true, false, List, [], ◌∷◌, ◌&&◌, leb, any, Exists, any-Exists, inl,
  inr, arith, Bool-cases,
}
use oscam_vdr.Convert.Address.{cs_inet_order, IpRange, ip_loop, check_ip}

abbrev pub InRange : Bool → ℕ → IpRange → Type 0
InRange swap n r =
    (cs_inet_order swap r.first ≤ cs_inet_order swap n)
    × (cs_inet_order swap n ≤ cs_inet_order swap r.last)

ip_loop_done : (swap : Bool) (rs : List IpRange) (n : ℕ) → ip_loop swap rs n true ≡ true
unfolding ip_loop
ip_loop_done swap [] n = refl
ip_loop_done swap (r ∷ rs) n = refl

ip_loop-any :
    (swap : Bool) (rs : List IpRange) (n : ℕ)
    → ip_loop swap rs n false
      ≡ any
          (λ r.
            leb (cs_inet_order swap r.first) (cs_inet_order swap n)
            && leb (cs_inet_order swap n) (cs_inet_order swap r.last))
          rs
unfolding ip_loop
ip_loop-any swap [] n = refl
ip_loop-any swap (r ∷ rs) n =
    elim (Bool-cases (
      leb (cs_inet_order swap r.first) (cs_inet_order swap n)
      && leb (cs_inet_order swap n) (cs_inet_order swap r.last))) [
        | inl e ↦ rw e (ip_loop_done swap rs n)
        | inr e ↦ rw e (ip_loop-any swap rs n)
      ]

-- `check_ip` holds exactly when the address, in the host's byte order, lies between the ends of
-- one of the ranges, both included.
pub check_ip-InRange :
    (swap : Bool) (rs : List IpRange) (n : ℕ)
    → (check_ip swap rs n ≡ true) ↔ Exists (InRange swap n) rs
unfolding check_ip
check_ip-InRange swap rs n =
    rw (ip_loop-any swap rs n) (any-Exists _ (InRange swap n) (λ r. ground arith) rs)
