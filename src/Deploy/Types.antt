-- ===== src/Deploy/Types.antt =====
-- types/deployment.ts, and the rows of the tables `deployment_jobs` and `deployment_job_targets` of
-- server/db/schema.ts. The creation time of a job, which no modelled operation reads, is left out.
use esos_webui.Common.{List, Option, String}

pub data BinaryKind : Type 0 where
  rpm : BinaryKind
  executable : BinaryKind
  archive : BinaryKind

pub data InstallKind : Type 0 where
  copy_executable : InstallKind
  unpack_rpm : InstallKind
  perccli : InstallKind

pub record DeploymentInstallSpec : Type 0 where
  pub install_kind : Option InstallKind
  pub remote_path : Option String

pub record DeploymentBinary : Type 0 where
  pub id : String
  pub filename : String
  pub sha256 : String
  pub kind : BinaryKind
  pub install_spec : DeploymentInstallSpec

pub data JobStatus : Type 0 where
  pending : JobStatus
  running : JobStatus
  partial : JobStatus
  success : JobStatus
  failed : JobStatus

pub data TargetStatus : Type 0 where
  pending : TargetStatus
  uploading : TargetStatus
  applying : TargetStatus
  success : TargetStatus
  failed : TargetStatus

pub record JobRow : Type 0 where
  pub id : String
  pub binary_id : String
  pub status : JobStatus
  pub updated_at : String

pub record TargetRow : Type 0 where
  pub id : String
  pub job_id : String
  pub san_id : String
  pub status : TargetStatus
  pub remote_path : Option String
  pub logs : String
  pub error_message : Option String
  pub started_at : Option String
  pub finished_at : Option String

-- The tables. The primary key of a row is its `id`.
pub record Tables : Type 0 where
  pub binaries : List DeploymentBinary
  pub jobs : List JobRow
  pub targets : List TargetRow
