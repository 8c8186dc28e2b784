-- ===== src/Server/Packets.antt =====
-- oscam.c: what is read out of the bytes of an ECM, and the way of an ECM through a tunnel.
pub mod Bounds
pub mod Tunnel
use oscam_vdr.Base.{
  ℕ, zero, suc, ◌+◌, ◌-◌, ◌*◌, ◌/◌, ◌%◌, Bool, true, false, ◌&&◌, ◌||◌, not, Option, none, some,
  List, [], ◌∷◌, ◌++◌, ◌==◌, ltb, nonzero, if◌then◌else◌, bit_and, bit_or, get_elem?, set, take,
  drop, u8, length,
}
use oscam_vdr.Convert.Bytes.{at, b2i}
use oscam_vdr.Server.{Request}

-- What the loop over a Cryptoworks ECM comes to: a provider, the end, or a byte that is not in the
-- array.
pub data Search : Type 0 where
  provider : ℕ → Search
  ended : Search
  outside : Search

-- The test and the value in a round, and else what comes after it.
unfoldable pub descriptor : List ℕ → ℕ → Search → Search
descriptor ecm i rest = elim (get_elem? ecm i) [
  | none ↦ outside
  | some tag ↦
      if tag == 0x83
      then elim (get_elem? ecm (2 + i)) [ none ↦ outside | some b ↦ provider (bit_and b 0xfe) ]
      else rest
]

-- `for(i=8; i<len; i+=descriptor_length+2)`, with fuel.
unfoldable pub provider_loop : ℕ → ℕ → List ℕ → ℕ → Search
provider_loop zero len ecm i = ended
provider_loop (suc fuel) len ecm i = elim (get_elem? ecm (suc i)) [
  | none ↦ if ltb i len then outside else ended
  | some descriptor_length ↦
      let rest = provider_loop fuel len ecm (i + (descriptor_length + 2)) in
      if ltb i len then descriptor ecm i rest else ended
]

-- `(((ecm[1] & 0xf) << 8) | ecm[2])+3`
abbrev pub section_length : List ℕ → ℕ
section_length ecm = bit_or (bit_and (at ecm 1) 0xf * 256) (at ecm 2) + 3

-- The branch of Viaccess, for the place behind which the nanos start.
abbrev pub viaccess_provider : List ℕ → ℕ → ℕ → ℕ → Option ℕ
viaccess_provider ecm p size skip =
    let i = if at ecm p == 0xd2 then at ecm (suc p) + 2 else 0 in
    if (at ecm (suc p + i) == size) && (at ecm (p + i) == 0x90 || at ecm (p + i) == 0x40)
    then some (bit_and (b2i 3 (drop (skip + i) ecm)) 0xfffff0)
    else none

abbrev pub or_else : Option ℕ → ℕ → ℕ
or_else none d = d
or_else (some x) d = x

-- `ecm` is the whole array of 512 bytes. The list `lb_noproviderforcaid` makes no difference, as
-- the result is 0 already. None where a byte outside the array is read.
unfoldable pub chk_provid : List ℕ → ℕ → Option ℕ
chk_provid ecm caid =
    if caid / 256 == 1
    then some (b2i 2 (drop 3 ecm))
    else if caid / 256 == 5
    then some (or_else (viaccess_provider ecm 6 7 8) (or_else (viaccess_provider ecm 4 3 6) 0))
    else if caid / 256 == 0xd
    then (elim (provider_loop (section_length ecm) (section_length ecm) ecm 8) [
      | provider p ↦ some p
      | ended ↦ some 0
      | outside ↦ none
    ])
    else some 0

abbrev pub header_n3 : List ℕ
header_n3 = 0xc7 ∷ 0 ∷ 0 ∷ 0 ∷ 1 ∷ 0x10 ∷ 0x10 ∷ 0 ∷ 0x87 ∷ 0x12 ∷ []

abbrev pub header_n2 : List ℕ
header_n2 = 0xc9 ∷ 0 ∷ 0 ∷ 0 ∷ 1 ∷ 0x10 ∷ 0x10 ∷ 0 ∷ 0x48 ∷ 0x12 ∷ []

-- The copy of `n` bytes over those from the place `p` on.
abbrev pub copy_to : ℕ → List ℕ → List ℕ → List ℕ
copy_to p bytes ecm = take p ecm ++ (bytes ++ drop (p + length bytes) ecm)

-- The bytes: the payload goes up by ten, and the header comes before it.
unfoldable pub beta_bytes : ℕ → List ℕ → List ℕ
beta_bytes l ecm =
    let moved = copy_to 13 (take (l - 3) (drop 3 ecm)) ecm in
    if ltb 0x88 l
    then (let headed = copy_to 3 header_n3 moved in
        set (if at headed 0 == 0x81 then set headed 12 (u8 (at headed 12 + 1)) else headed) 1 0x70)
    else copy_to 3 header_n2 moved

-- The counters `cwtun` are left out.
unfoldable pub convert_to_beta : Request → ℕ → Request
convert_to_beta er caidto =
    let l = at er.ecm 2 + 3 in
    record er {
      caid = caidto;
      prid = 0;
      l = l + 10;
      ecm = set (beta_bytes l er.ecm) 2 (u8 (l + 10 - 3));
      btun = true;
    }

-- A row of the tunnel table.
pub record TunnelRow : Type 0 where
  pub bt_caidfrom : ℕ
  pub bt_srvid : ℕ
  pub bt_caidto : ℕ

-- `srvid` is that of the request.
unfoldable pub cs_betatunnel : ℕ → Request → List TunnelRow → Request
cs_betatunnel srvid er [] = er
cs_betatunnel srvid er (t ∷ ts) =
    let rest = cs_betatunnel srvid er ts in
    if (er.caid == t.bt_caidfrom) && (srvid == t.bt_srvid || t.bt_srvid == 0xffff)
    then convert_to_beta er t.bt_caidto
    else rest
