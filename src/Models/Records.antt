-- ===== src/Models/Records.antt =====
-- The resources of src/tamga/models as client.py reads them. A member that a parser takes over
-- without a look is kept as JSON.
use tamga_python.Prelude.{Option}
use tamga_python.Python.Int.{ℤ}
use tamga_python.Python.Str.{Str}
use tamga_python.Python.Json.{Json}
use tamga_python.Models.Machine.{HeartbeatStatus}

-- A machine as the API describes it; its id is that of the resource, read as a UUID.
pub record MachineReading : Type 0 where
  pub id : Str
  pub fingerprint : Json
  pub name : Json
  pub ip : Json
  pub hostname : Json
  pub platform : Json
  pub cores : Json
  pub memory : Json
  pub disk : Json
  pub metadata : Json
  pub heartbeat_status : HeartbeatStatus
  pub last_heartbeat_at : Option ℤ
  pub next_heartbeat_at : Option ℤ
  pub last_check_out_at : Option ℤ
  pub created : Option ℤ
  pub updated : Option ℤ

pub record ComponentResource : Type 0 where
  pub id : Str
  pub machine_id : Str
  pub fingerprint : Json
  pub name : Json
  pub metadata : Json
  pub created : Option ℤ
  pub updated : Option ℤ

pub record ProcessResource : Type 0 where
  pub id : Str
  pub machine_id : Str
  pub pid : Json
  pub metadata : Json
  pub last_heartbeat_at : Option ℤ
  pub created : Option ℤ
  pub updated : Option ℤ

pub record Entitlement : Type 0 where
  pub id : Str
  pub name : Json
  pub code : Json
  pub kind : Json
  pub metadata : Json
  pub created : Option ℤ
  pub updated : Option ℤ
  pub inherited : Json
  pub max_value : Json
  pub current_value : Json

pub record ReleaseResource : Type 0 where
  pub id : Str
  pub product_id : Str
  pub version : Json
  pub channel : Json
  pub status : Json
  pub name : Json
  pub tag : Json
  pub metadata : Json
  pub created : Option ℤ
  pub updated : Option ℤ

pub record ArtifactResource : Type 0 where
  pub id : Str
  pub filename : Json
  pub status : Json
  pub filetype : Json
  pub filesize : Json
  pub checksum : Json
  pub platform : Json
  pub arch : Json
  pub signature : Json
  pub redirect_url : Json
  pub metadata : Json
  pub created : Option ℤ
  pub updated : Option ℤ

-- LicenseFileResource and MachineFileResource, which have the same fields
pub record FileResource : Type 0 where
  pub certificate : Json
  pub algorithm : Json
  pub includes : Json
  pub ttl : Json
  pub expiry : Json
  pub issued : Json
