-- ===== src/Server.antt =====
-- oscam.c: the way of an ECM from a client to the readers, and of the answer back. This file has
-- the codes and the structures of globals.h; the children have the operations.
-- A pointer to a reader or to a client is a number, and `Option` where the code has NULL; a byte
-- array is the list of all its bytes. Times are seconds, and an argument for each call of `time`
-- or `cs_ftime`. `CS_WITH_DOUBLECHECK` is off, as oscam-config.h has it.
pub mod Cache
pub mod Tasks
pub mod Packets
pub mod Failban
pub mod Intake
pub mod GetCw
pub mod RateLimit
mod Tests
use oscam_vdr.Base.{ℕ, Bool, Option, List}

-- The codes of `er->rc` in a client's task; `e_found` is the lowest.
abbrev pub e_found : ℕ
e_found = 0

abbrev pub e_cache1 : ℕ
e_cache1 = 1

abbrev pub e_cache2 : ℕ
e_cache2 = 2

abbrev pub e_emu : ℕ
e_emu = 3

abbrev pub e_notfound : ℕ
e_notfound = 4

abbrev pub e_timeout : ℕ
e_timeout = 5

abbrev pub e_fake : ℕ
e_fake = 7

abbrev pub e_corrupt : ℕ
e_corrupt = 9

abbrev pub e_nocard : ℕ
e_nocard = 10

abbrev pub e_99 : ℕ
e_99 = 99

abbrev pub e_unhandled : ℕ
e_unhandled = 100

-- The codes that a reader's thread gives.
abbrev pub e_rdr_notfound : ℕ
e_rdr_notfound = 0

abbrev pub e_rdr_found : ℕ
e_rdr_found = 1

abbrev pub e2_wrong_chksum : ℕ
e2_wrong_chksum = 0x31

abbrev pub cache_timeout : ℕ
cache_timeout = 60

-- `ECM_REQUEST`. `matching_rdr` is the list's content, `fallback` the reader of the node that it
-- points to, `tps` the seconds and `tps_millitm` the milliseconds of the time stamp, and
-- `ecmcacheptr` an address in the cache.
pub record Request : Type 0 where
  pub ecm : List ℕ
  pub cw : List ℕ
  pub ecmd5 : List ℕ
  pub l : ℕ
  pub caid : ℕ
  pub ocaid : ℕ
  pub prid : ℕ
  pub selected_reader : Option ℕ
  pub matching_rdr : List ℕ
  pub fallback : Option ℕ
  pub stage : ℕ
  pub locals_done : Bool
  pub client : Option ℕ
  pub cpti : ℕ
  pub rc : ℕ
  pub rc_ex : ℕ
  pub tps : ℕ
  pub tps_millitm : ℕ
  pub btun : Bool
  pub ecmcacheptr : Option ℕ
