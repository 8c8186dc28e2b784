-- ===== src/Server/Cache.antt =====
-- oscam.c: `ecmcache`, the list of the ECMs that were asked for, with the answer where there is one.
pub mod Scan
pub mod Answers
pub mod Life
pub mod Pointers
use oscam_vdr.Base.{
  ℕ, suc, ◌+◌, ◌-◌, ◌/◌, Bool, true, false, ◌&&◌, ◌||◌, not, Option, none, some, List, [], ◌∷◌,
  ◌==◌, ltb, leb, nonzero, if◌then◌else◌, bit_and, replicate,
}
use oscam_vdr.Server.{Request, e_found, e_cache1, e_99, e_unhandled, cache_timeout}

-- `struct s_ecm`, with its address.
pub record Ecm : Type 0 where
  pub address : ℕ
  pub ecmd5 : List ℕ
  pub cw : List ℕ
  pub caid : ℕ
  pub grp : ℕ
  pub reader : Option ℕ
  pub rc : ℕ
  pub time : ℕ

-- `malloc` gives `next_address`, and then no address again.
pub record Cache : Type 0 where
  pub entries : List Ecm
  pub next_address : ℕ

-- `!memcmp(a, b, n)` of two whole arrays of `n` bytes.
abbrev pub same_bytes : List ℕ → List ℕ → Bool
same_bytes [] [] = true
same_bytes [] (y ∷ ys) = false
same_bytes (x ∷ xs) [] = false
same_bytes (x ∷ xs) (y ∷ ys) = (x == y) && same_bytes xs ys

-- `now - cfg.ctimeout/1000 - CS_CACHE_TIMEOUT`; where the code's number is negative, no time is
-- below it, as none is below 0.
abbrev pub oldest : ℕ → ℕ → ℕ
oldest ctimeout now = now - ctimeout / 1000 - cache_timeout

-- The loop over the list: it removes what is out of time, until an entry passes the tests. What
-- the list is afterwards, and the entry.
unfoldable pub scan : ℕ → (Ecm → Bool) → List Ecm → List Ecm × Option Ecm
scan timeout test [] = ([], none)
scan timeout test (e ∷ es) =
    let rest = scan timeout test es in
    if ltb e.time timeout then rest else if test e then (e ∷ es, some e) else (e ∷ rest.0, rest.1)

-- The tests that both loops have.
abbrev pub same_ecm : Request → ℕ → Ecm → Bool
same_ecm er grp e =
    (not (nonzero grp) || nonzero (bit_and grp e.grp))
    && ((e.caid == er.caid) && same_bytes e.ecmd5 er.ecmd5)

unfoldable pub check_and_store_ecmcache : ℕ → ℕ → Request → ℕ → Cache → Cache × Request × ℕ
check_and_store_ecmcache ctimeout now er grp c =
    let r = scan (oldest ctimeout now) (same_ecm er grp) c.entries in
    elim r.1 [
      | some e ↦ (
        record c { entries = r.0 },
        record er {
          cw = e.cw;
          selected_reader = e.reader;
          ecmcacheptr = if e.rc == e_found then er.ecmcacheptr else some e.address;
        },
        if e.rc == e_found then e_cache1 else e.rc,
      )
      | none ↦ (
        record {
          entries =
              record {
                address = c.next_address;
                ecmd5 = er.ecmd5;
                cw = replicate 16 0;
                caid = er.caid;
                grp = grp;
                reader = none;
                rc = e_99;
                time = now;
              }
              ∷ r.0;
          next_address = suc c.next_address;
        },
        record er { ecmcacheptr = some c.next_address },
        e_unhandled,
      )
    ]

-- Whether there is an answer, which is then in the request.
unfoldable pub check_cwcache1 : ℕ → ℕ → Request → ℕ → Cache → Cache × Request × Bool
check_cwcache1 ctimeout now er grp c =
    let r = scan (oldest ctimeout now) (λ e. (e.rc == e_found) && same_ecm er grp e) c.entries in
    elim r.1 [
      | some e ↦
          (record c { entries = r.0 }, record er { cw = e.cw; selected_reader = e.reader }, true)
      | none ↦ (record c { entries = r.0 }, er, false)
    ]

abbrev pub check_cwcache2 : ℕ → ℕ → Request → ℕ → Cache → Cache × Request × Bool
check_cwcache2 = check_cwcache1

-- What an entry is overwritten with.
abbrev pub overwrite : ℕ → Request → ℕ → ℕ → Ecm → Ecm
overwrite now er grp rc e = record {
  address = e.address;
  ecmd5 = er.ecmd5;
  cw = er.cw;
  caid = er.caid;
  grp = grp;
  reader = er.selected_reader;
  rc = rc;
  time = now;
}

-- The entry at an address; none where there is none, since it was freed.
unfoldable pub entry_at : ℕ → List Ecm → Option Ecm
entry_at a [] = none
entry_at a (e ∷ es) = let rest = entry_at a es in if e.address == a then some e else rest

unfoldable pub put_at : ℕ → Ecm → List Ecm → List Ecm
put_at a v [] = []
put_at a v (e ∷ es) = let rest = put_at a v es in if e.address == a then v ∷ es else e ∷ rest

-- `now` is what `cs_ftime` and then `time` give. None where the code reads memory that was freed.
unfoldable pub store_cw_in_cache : ℕ → Request → ℕ → ℕ → Cache → Option Cache
store_cw_in_cache now er grp rc c =
    if leb (er.tps + cache_timeout) now then some c else elim er.ecmcacheptr [
      | none ↦ some c
      | some a ↦ elim (entry_at a c.entries) [
        | none ↦ none
        | some e ↦ some (
            if leb e.rc rc
            then c
            else record c { entries = put_at a (overwrite now er grp rc e) c.entries })
      ]
    ]
