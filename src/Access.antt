-- ===== src/Access.antt =====
-- oscam-chk.c: who may have an ECM decoded, and by which reader. This file has the tables that the
-- checks read (globals.h); the children have the checks.
-- An array with its count (`num_caid` and `caid`, `nprids` and `prids`, ...) is the list of the
-- entries in use; a linked table is the list of its nodes.
pub mod Services
pub mod Classes
pub mod Filters
pub mod Readers
mod Tests
use oscam_vdr.Base.{ℕ, Bool, Option, List}

-- `num_caid` caids, `num_provid` providers and `num_srvid` services.
pub record SidTab : Type 0 where
  pub caid : List ℕ
  pub provid : List ℕ
  pub srvid : List ℕ

pub record Filter : Type 0 where
  pub caid : ℕ
  pub prids : List ℕ

abbrev pub Ftab : Type 0
Ftab = List Filter

pub record ClassTab : Type 0 where
  pub aclass : List ℕ
  pub bclass : List ℕ

-- Three arrays of `CS_MAXCAIDTAB` entries; the checks do not read `cmap`.
pub record CaidTab : Type 0 where
  pub caid : List ℕ
  pub mask : List ℕ

-- What `snprintf` writes into `er->msglog`.
pub data MsgLog : Type 0 where
  empty : MsgLog
  no_server_match : ℕ → ℕ → MsgLog
  no_card_support : ℕ → ℕ → MsgLog

pub record EcmRequest : Type 0 where
  pub caid : ℕ
  pub ocaid : ℕ
  pub prid : ℕ
  pub srvid : ℕ
  pub chid : ℕ
  pub ecm : List ℕ
  pub l : ℕ
  pub rc_ex : ℕ
  pub msglog : MsgLog

-- The fields of `struct s_client` that the checks read. `sidtabok` and `sidtabno` are bit sets.
pub record Client : Type 0 where
  pub sidtabok : ℕ
  pub sidtabno : ℕ
  pub grp : ℕ
  pub port_idx : ℕ
  pub ftab : Ftab
  pub cltab : ClassTab
  pub fchid : Ftab

pub record WhiteIdent : Type 0 where
  pub ident : ℕ
  pub lengths : List ℕ

pub record WhiteCaid : Type 0 where
  pub caid : ℕ
  pub idents : List WhiteIdent

-- The fields of `struct s_reader` that the checks read. `client` is none where the pointer is
-- NULL. `available` is none where the protocol handler has no `c_available`, and else what its
-- call with `AVAIL_CHECK_CONNECTED` returns.
pub record Reader : Type 0 where
  pub client : Option Client
  pub connected : Bool
  pub grp : ℕ
  pub available : Option Bool
  pub ctab : CaidTab
  pub typ : ℕ
  pub caid : ℕ
  pub prid : List (List ℕ)
  pub ftab : Ftab
  pub cltab : ClassTab
  pub fchid : Ftab
  pub ecm_whitelist : List WhiteCaid
  pub ncd_disable_server_filt : Bool
  pub audisabled : Bool
  pub hexserial : List ℕ
  pub auprovid : ℕ
