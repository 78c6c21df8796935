-- ===== src/Lvm/Types.antt =====
-- types/lvm.ts: the records of the LVM inventory and of the cluster plan. Sizes are natural
-- numbers of bytes; optional fields are `Option`.
use esos_webui.Common.{Bool, List, Option, String, ℕ}

pub data LvmAction : Type 0 where
  pvcreate vgcreate lvcreate pvremove vgremove lvremove bind_scst : LvmAction

pub data LvmUsedBy : Type 0 where
  filesystem md lvm scst mounted unknown_signature : LvmUsedBy

-- The tools that the modelled checks read.
pub record LvmToolsInfo : Type 0 where
  pub pvcreate : Bool
  pub clvmd : Bool

pub record PhysicalVolume : Type 0 where
  pub path : String
  pub vg_name : String
  pub size_bytes : ℕ

pub record VolumeGroup : Type 0 where
  pub name : String
  pub size_bytes : ℕ
  pub free_bytes : ℕ
  pub clustered : Bool

pub record LogicalVolume : Type 0 where
  pub name : String
  pub path : String
  pub vg_name : String
  pub size_bytes : ℕ
  pub used_by : List LvmUsedBy

pub record LvmCandidateDevice : Type 0 where
  pub path : String
  pub size_bytes : ℕ
  pub eligible : Bool
  pub reasons : List String
  pub used_by : List LvmUsedBy

pub record LvmOverview : Type 0 where
  pub tools : LvmToolsInfo
  pub pvs : List PhysicalVolume
  pub vgs : List VolumeGroup
  pub lvs : List LogicalVolume
  pub candidates : List LvmCandidateDevice

-- A block device or an MD array, as far as the LVM checks read it.
pub record SizedDevice : Type 0 where
  pub name : String
  pub path : String
  pub size_bytes : Option ℕ

pub record ClusterLvmNodeInventory : Type 0 where
  pub san_id : String
  pub label : String
  pub read_only : Bool
  pub ssh_ready : Bool
  pub error : Option String
  pub overview : LvmOverview
  pub md_arrays : List SizedDevice
  pub block_devices : List SizedDevice

pub record ClusterLvmDiskMapping : Type 0 where
  pub source_san_id : String
  pub peer_san_id : String
  pub source_path : String
  pub peer_path : String

pub record ClusterLvmPreflightResult : Type 0 where
  pub ok : Bool
  pub blockers : List String
  pub warnings : List String
  pub mappings : List ClusterLvmDiskMapping
  pub nodes : List ClusterLvmNodeInventory

-- The request bodies of the six actions in one record: the source reads the fields of the body by
-- a cast that the action chooses.
pub record LvmPayload : Type 0 where
  pub path : String
  pub force : Bool
  pub name : String
  pub vg_name : String
  pub pv_paths : List String
  pub size_bytes : ℕ
  pub confirmation : String

pub record ClusterLvmExecutionRequest : Type 0 where
  pub primary_san_id : String
  pub cluster_id : Option String

pub data Participation : Type 0 where
  execute skip failed : Participation

abbrev pub is_execute : Participation → Bool
is_execute execute = Bool.true
is_execute _ = Bool.false

pub record ClusterLvmNodeResult : Type 0 where
  pub san_id : String
  pub label : String
  pub participation : Participation
  pub command : Option String
  pub exit_code : Option ℕ
  pub stdout : Option String
  pub stderr : Option String
  pub error : Option String

pub record ClusterLvmExecutionPlan : Type 0 where
  pub action : LvmAction
  pub cluster_id : Option String
  pub primary_san_id : String
  pub confirmation_phrase : String
  pub node_results : List ClusterLvmNodeResult
  pub ok_symmetric : Bool
  pub warnings : List String
  pub blockers : List String

pub record ClusterLvmExecutionResult : Type 0 where
  pub success : Bool
  pub action : LvmAction
  pub cluster_id : String
  pub primary_san_id : String
  pub node_results : List ClusterLvmNodeResult
  pub refreshed_san_ids : List String
  pub errors : List String
