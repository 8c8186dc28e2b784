-- ===== src/Convert/Address.antt =====
-- `cs_inet_order` and `check_ip` of oscam-simples.c. `inet_byteorder` is 1 or 2, found out from
-- the C library's `inet_addr`; here it is the argument `swap`, true for 2.
pub mod Ranges
use oscam_vdr.Base.{
  ℕ, ◌*◌, ◌/◌, ◌^◌, bit_and, bit_or, Bool, true, false, ◌&&◌, List, [], ◌∷◌, leb, if◌then◌else◌,
}

unfoldable pub cs_inet_order : Bool → ℕ → ℕ
cs_inet_order false n = n
cs_inet_order true n =
    bit_or
      (bit_or (bit_or (bit_and n 0xff00_0000 / 2 ^ 24) (bit_and n 0x00ff_0000 / 2 ^ 8))
        (bit_and n 0x0000_ff00 * 2 ^ 8))
      (bit_and n 0x0000_00ff * 2 ^ 24)

-- A range of `struct s_ip`, as stored.
pub record IpRange : Type 0 where
  pub first : ℕ
  pub last : ℕ

-- `for (p_ip=ip; (p_ip) && (!ok); p_ip=p_ip->next) ok=...`
unfoldable pub ip_loop : Bool → List IpRange → ℕ → Bool → Bool
ip_loop swap [] n ok = ok
ip_loop swap (r ∷ rs) n ok = elim ok [
  | true ↦ true
  | false ↦ ip_loop swap rs n (
      leb (cs_inet_order swap r.first) (cs_inet_order swap n)
      && leb (cs_inet_order swap n) (cs_inet_order swap r.last))
]

unfoldable pub check_ip : Bool → List IpRange → ℕ → Bool
check_ip swap ip n = ip_loop swap ip n false
