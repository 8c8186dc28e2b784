-- ===== src/Access/Tests.antt =====
-- The checks at work on small tables.
use oscam_vdr.Base.{
  ◌≡◌, refl, true, false, ◌&&◌, ◌||◌, not, Option, none, some, List, [], ◌∷◌, ◌==◌, nonzero,
}
use oscam_vdr.Access.{
  SidTab, Ftab, ClassTab, CaidTab, MsgLog, EcmRequest, Client, Reader, WhiteCaid,
}
use oscam_vdr.Access.Services.{chk_srvid, chk_srvid_match, is_empty}
use oscam_vdr.Access.Services.Verdict.{any_from, selects, chk_srvid-selects}
use oscam_vdr.Access.Classes.{chk_class, class_loop, class_round, find_nano}
use oscam_vdr.Access.Classes.Rule.{ecm_classes, meets, chk_class-meets}
use oscam_vdr.Access.Filters.{chk_ctab, ctab_loop, chk_rfilter, chk_chid}
use oscam_vdr.Access.Readers.{chk_whitelist, white_caids, white_idents, matching_reader}
use oscam_vdr.Access.Readers.Matching.{is_listed, has_length, serves, matching_reader-serves}

abbrev viaccess_ecm : EcmRequest
viaccess_ecm = record {
  caid = 0x500;
  ocaid = 0x500;
  prid = 0x32830;
  srvid = 0x1234;
  chid = 0;
  ecm = 0x80 ∷ 0x70 ∷ 10 ∷ 0 ∷ 0 ∷ 0 ∷ 0 ∷ 0 ∷ 0 ∷ 0xe2 ∷ 2 ∷ 1 ∷ 0xc ∷ [];
  l = 13;
  rc_ex = 0;
  msglog = MsgLog.empty;
}

abbrev pay_table : SidTab
pay_table = record { caid = 0x500 ∷ []; provid = 0x32830 ∷ []; srvid = 0x1234 ∷ 0x1235 ∷ [] }

abbrev free_table : SidTab
free_table = record { caid = 0x100 ∷ []; provid = []; srvid = [] }

abbrev tables : List SidTab
tables = free_table ∷ pay_table ∷ []

abbrev classes : ClassTab
classes = record { aclass = 0xc ∷ []; bclass = 3 ∷ [] }

abbrev filters : Ftab
filters = record { caid = 0x500; prids = 0x32830 ∷ [] } ∷ []

abbrev other_filters : Ftab
other_filters = record { caid = 0x500; prids = 7 ∷ [] } ∷ []

abbrev user : Client
user = record {
  sidtabok = 2;
  sidtabno = 1;
  grp = 1;
  port_idx = 0;
  ftab = filters;
  cltab = classes;
  fchid = [];
}

abbrev caids : CaidTab
caids = record { caid = 0x500 ∷ []; mask = 0xff00 ∷ [] }

abbrev whitelist : List WhiteCaid
whitelist = record { caid = 0x500; idents = record { ident = 0; lengths = 13 ∷ 14 ∷ [] } ∷ [] } ∷ []

abbrev card_reader : Reader
card_reader = record {
  client = some user;
  connected = true;
  grp = 3;
  available = none;
  ctab = caids;
  typ = 1;
  caid = 0x500;
  prid = [];
  ftab = [];
  cltab = classes;
  fchid = [];
  ecm_whitelist = whitelist;
  ncd_disable_server_filt = false;
  audisabled = false;
  hexserial = 0 ∷ 0 ∷ 1 ∷ 2 ∷ 3 ∷ 4 ∷ 0 ∷ 0 ∷ [];
  auprovid = 0;
}

chk_srvid_passes : chk_srvid tables user viaccess_ecm ≡ true
unfolding chk_srvid chk_srvid_match
chk_srvid_passes = refl

chk_srvid_refuses : chk_srvid tables (record user { sidtabno = 2 }) viaccess_ecm ≡ false
unfolding chk_srvid chk_srvid_match
chk_srvid_refuses = refl

chk_class_blocks : chk_class viaccess_ecm (record { aclass = []; bclass = 0xc ∷ [] }) ≡ false
unfolding chk_class class_loop class_round find_nano
chk_class_blocks = refl

matching_reader_takes : matching_reader tables user (some viaccess_ecm) (some card_reader) ≡ true
unfolding matching_reader chk_ctab ctab_loop chk_srvid chk_srvid_match chk_rfilter chk_class
    class_loop class_round find_nano chk_chid chk_whitelist white_caids white_idents
matching_reader_takes = refl

matching_reader_length :
    matching_reader tables user (some (record viaccess_ecm { l = 10 })) (some card_reader) ≡ false
unfolding matching_reader chk_ctab ctab_loop chk_srvid chk_srvid_match chk_rfilter chk_class
    class_loop class_round find_nano chk_chid chk_whitelist white_caids white_idents
matching_reader_length = refl

chk_srvid-selects_example : chk_srvid tables user viaccess_ecm ≡ (
    not (any_from (selects 1 viaccess_ecm) 0 tables)
    && (not (nonzero 2) || any_from (selects 2 viaccess_ecm) 0 tables))
chk_srvid-selects_example = chk_srvid-selects tables user viaccess_ecm

chk_class-meets_example :
    let cs = ecm_classes 14 viaccess_ecm 0 in
    chk_class viaccess_ecm classes ≡ (
      not (0x500 == 0x500)
      || ((is_empty classes.bclass && is_empty classes.aclass)
          || (not (meets classes.bclass cs)
              && (is_empty cs || (is_empty classes.aclass || meets classes.aclass cs)))))
chk_class-meets_example = chk_class-meets viaccess_ecm classes

abbrev filtered : Client
filtered = record user { ftab = other_filters }

abbrev ports : Option (List Ftab)
ports = some (other_filters ∷ [])

matching_reader-serves_example :
    matching_reader tables user (some viaccess_ecm) (some card_reader) ≡ (
      serves user viaccess_ecm card_reader
      && ((not (any_from (selects 1 viaccess_ecm) 0 tables)
            && (not (nonzero 2) || any_from (selects 2 viaccess_ecm) 0 tables))
          && (not (is_listed viaccess_ecm whitelist) || has_length viaccess_ecm whitelist)))
matching_reader-serves_example =
    matching_reader-serves tables user user viaccess_ecm card_reader refl
