-- ===== src/Models/Validation.antt =====
-- models/validation.py: the codes of a validation.
use tamga_python.Python.Str.{Str, codes}

pub data ValidationCode : Type 0 where
  valid suspended expired overdue : ValidationCode
  product_scope_mismatch policy_scope_mismatch user_scope_mismatch environment_scope_mismatch :
      ValidationCode
  too_many_machines too_many_cores too_much_memory too_much_disk too_many_processes : ValidationCode
  not_found banned entitlements_missing too_many_users : ValidationCode
  heartbeat_dead heartbeat_not_started : ValidationCode
  fingerprint_scope_mismatch components_scope_mismatch checksum_scope_mismatch : ValidationCode
  version_scope_mismatch unknown : ValidationCode

-- code.value
abbrev pub code_value : ValidationCode → Str
code_value valid = codes "VALID"
code_value suspended = codes "SUSPENDED"
code_value expired = codes "EXPIRED"
code_value overdue = codes "OVERDUE"
code_value product_scope_mismatch = codes "PRODUCT_SCOPE_MISMATCH"
code_value policy_scope_mismatch = codes "POLICY_SCOPE_MISMATCH"
code_value user_scope_mismatch = codes "USER_SCOPE_MISMATCH"
code_value environment_scope_mismatch = codes "ENVIRONMENT_SCOPE_MISMATCH"
code_value too_many_machines = codes "TOO_MANY_MACHINES"
code_value too_many_cores = codes "TOO_MANY_CORES"
code_value too_much_memory = codes "TOO_MUCH_MEMORY"
code_value too_much_disk = codes "TOO_MUCH_DISK"
code_value too_many_processes = codes "TOO_MANY_PROCESSES"
code_value not_found = codes "NOT_FOUND"
code_value banned = codes "BANNED"
code_value entitlements_missing = codes "ENTITLEMENTS_MISSING"
code_value too_many_users = codes "TOO_MANY_USERS"
code_value heartbeat_dead = codes "HEARTBEAT_DEAD"
code_value heartbeat_not_started = codes "HEARTBEAT_NOT_STARTED"
code_value fingerprint_scope_mismatch = codes "FINGERPRINT_SCOPE_MISMATCH"
code_value components_scope_mismatch = codes "COMPONENTS_SCOPE_MISMATCH"
code_value checksum_scope_mismatch = codes "CHECKSUM_SCOPE_MISMATCH"
code_value version_scope_mismatch = codes "VERSION_SCOPE_MISMATCH"
code_value unknown = codes "UNKNOWN"
