-- ===== src/Client/Endpoint.antt =====
-- The operations of the sub-clients of client.py, with the method and the path of each.
pub mod Repetition
mod Tests
use tamga_python.Prelude.{◌++◌}
use tamga_python.Python.Str.{Str, codes}

pub data Operation : Type 0 where
  -- LicensesClient
  validate_by_key : Operation
  validate_by_id quick_validate get_license get_license_policy check_in : Str → Operation
  check_out_license check_out_license_bytes : Str → Operation
  -- MachinesClient
  create_machine list_machines : Operation
  get_machine update_machine delete_machine ping_heartbeat reset_heartbeat : Str → Operation
  check_out_machine check_out_machine_bytes generate_offline_proof : Str → Operation
  -- ComponentsClient and ProcessesClient
  create_component create_process : Operation
  list_components list_processes ping_process delete_process : Str → Operation
  -- EntitlementsClient; the second argument is the entitlement
  list_entitlements : Str → Operation
  get_entitlement increment_usage decrement_usage reset_usage : Str → Str → Operation
  -- AccountsClient, PoliciesClient, ReleasesClient and ArtifactsClient
  list_signing_keys check_for_upgrade : Operation
  get_policy list_artifacts get_artifact get_download_url : Str → Operation

pub record Endpoint : Type 0 where
  pub method : Str
  pub path : Str

abbrev pub get : Str → Endpoint
get path = record { method = codes "GET"; path = path }

abbrev pub post : Str → Endpoint
post path = record { method = codes "POST"; path = path }

abbrev pub license_path : Str → Str → Str
license_path id rest = codes "/licenses/" ++ (id ++ rest)

abbrev pub machine_path : Str → Str → Str
machine_path id rest = codes "/machines/" ++ (id ++ rest)

abbrev pub entitlement_path : Str → Str → Str → Str
entitlement_path license_id id rest =
    license_path license_id (codes "/entitlements/" ++ (id ++ rest))

abbrev pub endpoint : Operation → Endpoint
endpoint validate_by_key = post (codes "/licenses/actions/validate-key")
endpoint (validate_by_id id) = post (license_path id (codes "/actions/validate"))
endpoint (quick_validate id) = get (license_path id (codes "/actions/validate"))
endpoint (get_license id) = get (codes "/licenses/" ++ id)
endpoint (get_license_policy id) = get (license_path id (codes "/policy"))
endpoint (check_in id) = post (license_path id (codes "/actions/check-in"))
endpoint (check_out_license id) = post (license_path id (codes "/actions/check-out"))
endpoint (check_out_license_bytes id) = get (license_path id (codes "/actions/check-out"))
endpoint create_machine = post (codes "/machines")
endpoint list_machines = get (codes "/machines")
endpoint (get_machine id) = get (codes "/machines/" ++ id)
endpoint (update_machine id) = record { method = codes "PATCH"; path = codes "/machines/" ++ id }
endpoint (delete_machine id) = record { method = codes "DELETE"; path = codes "/machines/" ++ id }
endpoint (ping_heartbeat id) = post (machine_path id (codes "/actions/ping-heartbeat"))
endpoint (reset_heartbeat id) = post (machine_path id (codes "/actions/reset-heartbeat"))
endpoint (check_out_machine id) = post (machine_path id (codes "/actions/check-out"))
endpoint (check_out_machine_bytes id) = get (machine_path id (codes "/actions/check-out"))
endpoint (generate_offline_proof id) =
    post (machine_path id (codes "/actions/generate-offline-proof"))
endpoint create_component = post (codes "/components")
endpoint create_process = post (codes "/processes")
endpoint (list_components id) = get (machine_path id (codes "/components"))
endpoint (list_processes id) = get (machine_path id (codes "/processes"))
endpoint (ping_process id) = post (codes "/processes/" ++ (id ++ codes "/actions/ping"))
endpoint (delete_process id) = record { method = codes "DELETE"; path = codes "/processes/" ++ id }
endpoint (list_entitlements id) = get (license_path id (codes "/entitlements"))
endpoint (get_entitlement license_id id) =
    get (license_path license_id (codes "/entitlements/" ++ id))
endpoint (increment_usage license_id id) =
    post (entitlement_path license_id id (codes "/actions/increment"))
endpoint (decrement_usage license_id id) =
    post (entitlement_path license_id id (codes "/actions/decrement"))
endpoint (reset_usage license_id id) =
    post (entitlement_path license_id id (codes "/actions/reset"))
endpoint list_signing_keys = get (codes "/signing-keys")
endpoint check_for_upgrade = get (codes "/releases/actions/upgrade")
endpoint (get_policy id) = get (codes "/policies/" ++ id)
endpoint (list_artifacts id) = get (codes "/releases/" ++ (id ++ codes "/artifacts"))
endpoint (get_artifact id) = get (codes "/artifacts/" ++ id)
endpoint (get_download_url id) = get (codes "/artifacts/" ++ (id ++ codes "/actions/download"))
