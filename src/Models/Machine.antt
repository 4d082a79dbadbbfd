-- ===== src/Models/Machine.antt =====
-- models/machine.py and `LicenseScheme` of models/policy.py: what a machine file mentions.
use tamga_python.Prelude.{if◌then◌else◌}
use tamga_python.Python.Str.{Str, codes, str_eq}
use tamga_python.Python.Json.{Json, str}

pub data HeartbeatStatus : Type 0 where
  not_started alive dead resurrected : HeartbeatStatus

-- The algorithm of a license's keys and check-outs.
pub data LicenseScheme : Type 0 where
  ed25519_sign rsa_2048_pkcs1_sign rsa_2048_pkcs1_pss_sign ecdsa_p256_sign : LicenseScheme
  rsa_2048_jwt_rs256 : LicenseScheme

abbrev pub scheme_value : LicenseScheme → Str
scheme_value ed25519_sign = codes "ED25519_SIGN"
scheme_value rsa_2048_pkcs1_sign = codes "RSA_2048_PKCS1_SIGN"
scheme_value rsa_2048_pkcs1_pss_sign = codes "RSA_2048_PKCS1_PSS_SIGN"
scheme_value ecdsa_p256_sign = codes "ECDSA_P256_SIGN"
scheme_value rsa_2048_jwt_rs256 = codes "RSA_2048_JWT_RS256"

unfoldable pub status_of_text : Str → HeartbeatStatus
unfolding str_eq
status_of_text s =
    if str_eq s (codes "ALIVE")
    then alive
    else if str_eq s (codes "DEAD")
    then dead
    else if str_eq s (codes "RESURRECTED")
    then resurrected
    else not_started

-- HeartbeatStatus(v), and NOT_STARTED where that raises
unfoldable pub heartbeat_status_from : Json → HeartbeatStatus
unfolding status_of_text
heartbeat_status_from (str s) = status_of_text s
heartbeat_status_from v = not_started

-- The members that a machine file fills; what it holds under a name is kept as it is.
pub record MachineResource : Type 0 where
  pub id : Json
  pub fingerprint : Json
  pub name : Json
  pub ip : Json
  pub hostname : Json
  pub platform : Json
  pub cores : Json
  pub memory : Json
  pub disk : Json
  pub metadata : Json
  pub heartbeat_status : HeartbeatStatus
