-- ===== src/Hdd/Types.antt =====
-- ps2hdd/src/lib.rs: `PS2HDD`, an open disk.
use ps2hdd_rs.Prelude.{Text, Option}
use ps2hdd_rs.Driver.{Pfs, Hdlfs}

pub record Ps2hdd : Type 0 where
  pub path : Text
  pub pfs : Option Pfs
  pub hdlfs : Option Hdlfs
