-- ===== src/Models/Policy/Strategies.antt =====
-- models/policy.py: the enumerations of a policy, with the values that the API writes.
use tamga_python.Prelude.{Option, none, some, [], ◌∷◌}
use tamga_python.Python.Str.{Str, codes, strip, is_space}
use tamga_python.Python.Json.{Json, null, str}
use tamga_python.Python.Exc.{Result, ok, err, or_value_error, value_error}
use tamga_python.Models.Machine.{
  LicenseScheme, ed25519_sign, rsa_2048_pkcs1_sign, rsa_2048_pkcs1_pss_sign, ecdsa_p256_sign,
  rsa_2048_jwt_rs256,
}
use tamga_python.Models.SigningKey.{lower}
use tamga_python.Models.Enum.{Members, member_named}

pub data OverageStrategy : Type 0 where
  no_overage allow_1_25x_overage allow_1_5x_overage allow_2x_overage : OverageStrategy
  always_allow_overage : OverageStrategy

abbrev pub overage_strategies : Members OverageStrategy
overage_strategies =
    (codes "NO_OVERAGE", no_overage)
    ∷ (codes "ALLOW_1_25X_OVERAGE", allow_1_25x_overage)
    ∷ (codes "ALLOW_1_5X_OVERAGE", allow_1_5x_overage)
    ∷ (codes "ALLOW_2X_OVERAGE", allow_2x_overage)
    ∷ (codes "ALWAYS_ALLOW_OVERAGE", always_allow_overage)
    ∷ []

pub data HeartbeatCullStrategy : Type 0 where
  deactivate_dead keep_dead : HeartbeatCullStrategy

abbrev pub cull_strategies : Members HeartbeatCullStrategy
cull_strategies = (codes "DEACTIVATE_DEAD", deactivate_dead) ∷ (codes "KEEP_DEAD", keep_dead) ∷ []

pub data HeartbeatResurrectionStrategy : Type 0 where
  no_revive one_minute_revive two_minute_revive five_minute_revive : HeartbeatResurrectionStrategy
  ten_minute_revive fifteen_minute_revive always_revive : HeartbeatResurrectionStrategy

abbrev pub resurrection_strategies : Members HeartbeatResurrectionStrategy
resurrection_strategies =
    (codes "NO_REVIVE", no_revive)
    ∷ (codes "1_MINUTE_REVIVE", one_minute_revive)
    ∷ (codes "2_MINUTE_REVIVE", two_minute_revive)
    ∷ (codes "5_MINUTE_REVIVE", five_minute_revive)
    ∷ (codes "10_MINUTE_REVIVE", ten_minute_revive)
    ∷ (codes "15_MINUTE_REVIVE", fifteen_minute_revive)
    ∷ (codes "ALWAYS_REVIVE", always_revive)
    ∷ []

abbrev pub license_schemes : Members LicenseScheme
license_schemes =
    (codes "ED25519_SIGN", ed25519_sign)
    ∷ (codes "RSA_2048_PKCS1_SIGN", rsa_2048_pkcs1_sign)
    ∷ (codes "RSA_2048_PKCS1_PSS_SIGN", rsa_2048_pkcs1_pss_sign)
    ∷ (codes "ECDSA_P256_SIGN", ecdsa_p256_sign)
    ∷ (codes "RSA_2048_JWT_RS256", rsa_2048_jwt_rs256)
    ∷ []

pub data CheckInInterval : Type 0 where
  daily weekly monthly yearly : CheckInInterval

-- Each alias of the class, such as DAY, is its adverbial member.
abbrev pub check_in_intervals : Members CheckInInterval
check_in_intervals =
    (codes "daily", daily)
    ∷ (codes "weekly", weekly)
    ∷ (codes "monthly", monthly)
    ∷ (codes "yearly", yearly)
    ∷ []

abbrev pub legacy_check_in_intervals : Members Str
legacy_check_in_intervals =
    (codes "day", codes "daily")
    ∷ (codes "week", codes "weekly")
    ∷ (codes "month", codes "monthly")
    ∷ (codes "year", codes "yearly")
    ∷ []

-- _LEGACY_CHECK_IN_INTERVALS.get(normalized, normalized)
unfoldable pub adverbial : Str → Str
unfolding member_named
adverbial s = elim (member_named legacy_check_in_intervals s) [ none ↦ s | some value ↦ value ]

-- CheckInInterval._missing_; a value that is no text is no member either
unfoldable pub missing_interval : Json → Option CheckInInterval
unfolding adverbial lower strip is_space member_named
missing_interval (str s) = member_named check_in_intervals (adverbial (lower (strip is_space s)))
missing_interval v = none

-- CheckInInterval(v): the member of that value, or else what `_missing_` finds
unfoldable pub check_in_interval_of_text : Str → Option CheckInInterval
unfolding missing_interval member_named
check_in_interval_of_text s = elim (member_named check_in_intervals s) [
  | none ↦ missing_interval (str s)
  | some interval ↦ some interval
]

-- CheckInInterval(v) if v is not None else None
unfoldable pub check_in_interval_of : Json → Result (Option CheckInInterval)
unfolding check_in_interval_of_text or_value_error
check_in_interval_of null = ok none
check_in_interval_of (str s) = elim (check_in_interval_of_text s) [
  | none ↦ err value_error
  | some interval ↦ ok (some interval)
]
check_in_interval_of v = err value_error
