-- ===== src/Client/Licenses/Validation.antt =====
-- The reading of a validation sends nothing.
use tamga_python.Prelude.{refl, none, some, if◌then◌else◌}
use tamga_python.Python.Json.{Json, Fields, is_truthy}
use tamga_python.Models.License.{license_from_data}
use tamga_python.Models.Meta.{parse_validation_meta}
use tamga_python.Client.Request.{Context}
use tamga_python.Client.Session.{return, lift, ◌>>=◌}
use tamga_python.Client.Session.Sending.{Quiet, lift-quiet, bind-Quiet, if-Quiet}
use tamga_python.Client.Licenses.{validation_result}

module _ (ctx : Context) where
  pub validation_result-Quiet :
      (license_data : Json) (meta : Fields) → Quiet ctx (validation_result ctx license_data meta)
  unfolding validation_result
  validation_result-Quiet license_data meta =
      let fetched = license_from_data ctx.reader license_data in
      bind-Quiet ctx
        (if is_truthy license_data
          then lift fetched >>= (λ found. return (some found))
          else return none)
        (λ found.
          lift (parse_validation_meta ctx.reader meta)
          >>= (λ parsed. return (record { license = found; meta = parsed })))
        (if-Quiet ctx (is_truthy license_data) _ _
          (bind-Quiet ctx (lift fetched) _ (lift-quiet ctx fetched) (λ found l. refl)) (λ l. refl))
        (λ found.
          bind-Quiet ctx (lift (parse_validation_meta ctx.reader meta)) _
            (lift-quiet ctx (parse_validation_meta ctx.reader meta)) (λ parsed l. refl))
