-- ===== src/Scst/Types.antt =====
-- types/esos.ts: the configuration of SCST.
use esos_webui.Common.{Bool, List, String, ℕ}

pub record Lun : Type 0 where
  pub id : ℕ
  pub device : String
  pub read_only : Bool
  pub attrs : List (String × String)

pub record Group : Type 0 where
  pub name : String
  pub initiators : List String
  pub luns : List Lun

pub record Session : Type 0 where
  pub initiator_name : String
  pub target : String
  pub driver : String
  pub ip_addr : String
  pub sid : String

pub record Target : Type 0 where
  pub name : String
  pub driver : String
  pub enabled : Bool
  pub hw_target : Bool
  pub attrs : List (String × String)
  pub groups : List Group
  pub luns : List Lun
  pub sessions : List Session

pub record Driver : Type 0 where
  pub name : String
  pub enabled : Bool
  pub targets : List Target

pub record Device : Type 0 where
  pub name : String
  pub handler : String
  pub filename : String
  pub attrs : List (String × String)

pub record Handler : Type 0 where
  pub name : String
  pub devices : List Device

pub record AluaTargetGroupConfig : Type 0 where
  pub name : String
  pub group_id : ℕ
  pub targets : List String

pub record AluaDeviceGroupConfig : Type 0 where
  pub name : String
  pub devices : List String
  pub target_groups : List AluaTargetGroupConfig

pub record ScstConfig : Type 0 where
  pub handlers : List Handler
  pub drivers : List Driver
  pub device_groups : List AluaDeviceGroupConfig
