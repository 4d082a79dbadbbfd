-- ===== src/Models/Resources.antt =====
-- The resource parsers of client.py: machines, components, processes, entitlements, releases,
-- artifacts and signing keys. A member that a parser takes over without a look is kept as JSON.
use tamga_python.Prelude.{none, some, [], ◌∷◌}
use tamga_python.Python.Str.{Str, codes}
use tamga_python.Python.Json.{
  Json, null, str, arr, obj, nil, Fields, end, get, get_or, subscript, index_by, to_str,
}
use tamga_python.Python.Exc.{Result, ok, err, ◌>>=◌, or_value_error, value_error}
use tamga_python.Errors.{as_object, or_empty}
use tamga_python.Models.Machine.{HeartbeatStatus, not_started, alive, dead, resurrected}
use tamga_python.Models.SigningKey.{SigningKey, ed25519_algorithm, active_status}
use tamga_python.Models.Enum.{Members, member_of}
use tamga_python.Models.Reader.{Reader, attributes_of, metadata_of, uuid_of, id_of, instant_of}
use tamga_python.Models.Records.{
  ArtifactResource, ComponentResource, Entitlement, FileResource, MachineReading, ProcessResource,
  ReleaseResource,
}

abbrev pub heartbeat_statuses : Members HeartbeatStatus
heartbeat_statuses =
    (codes "NOT_STARTED", not_started)
    ∷ (codes "ALIVE", alive)
    ∷ (codes "DEAD", dead)
    ∷ (codes "RESURRECTED", resurrected)
    ∷ []

-- `_parse_license_file_resource`, and the end of `MachinesClient.check_out`
unfoldable pub parse_file_resource : Json → Result FileResource
unfolding attributes_of as_object get_or
parse_file_resource data_member = do
  resource ← as_object data_member
  attrs ← as_object (attributes_of resource)
  ok (record {
    certificate = get_or attrs (codes "certificate") (str []);
    algorithm = get_or attrs (codes "algorithm") (str []);
    includes = get_or attrs (codes "includes") (arr nil);
    ttl = get_or attrs (codes "ttl") null;
    expiry = get_or attrs (codes "expiry") null;
    issued = get_or attrs (codes "issued") (str []);
  })

-- attrs if isinstance(attrs, dict) else {}
unfoldable pub object_or_empty : Json → Fields
object_or_empty (obj fields) = fields
object_or_empty v = end

-- The test of an artifact's resource object: its id, and its attributes, empty where they are no
-- object.
unfoldable pub artifact_object : Json → Result (Json × Fields)
unfolding get get_or object_or_empty
artifact_object (obj resource) = elim (get resource (codes "id")) [
  | none ↦ err value_error
  | some id ↦ ok (id, object_or_empty (get_or resource (codes "attributes") null))
]
artifact_object v = err value_error

module _ (rd : Reader) where
  unfoldable pub parse_machine_resource : Json → Result MachineReading
  unfolding attributes_of metadata_of as_object get_or id_of instant_of or_value_error member_of
  parse_machine_resource data_member = do
    resource ← as_object data_member
    id ← id_of rd data_member
    attrs ← as_object (attributes_of resource)
    heartbeat_status ← or_value_error (
        member_of heartbeat_statuses
          (get_or attrs (codes "heartbeat_status") (str (codes "NOT_STARTED"))))
    last_heartbeat_at ← instant_of rd attrs (codes "last_heartbeat_at")
    next_heartbeat_at ← instant_of rd attrs (codes "next_heartbeat_at")
    last_check_out_at ← instant_of rd attrs (codes "last_check_out_at")
    created ← instant_of rd attrs (codes "created")
    updated ← instant_of rd attrs (codes "updated")
    ok (record {
      id = id;
      fingerprint = get_or attrs (codes "fingerprint") (str []);
      name = get_or attrs (codes "name") null;
      ip = get_or attrs (codes "ip") null;
      hostname = get_or attrs (codes "hostname") null;
      platform = get_or attrs (codes "platform") null;
      cores = get_or attrs (codes "cores") null;
      memory = get_or attrs (codes "memory") null;
      disk = get_or attrs (codes "disk") null;
      metadata = metadata_of attrs;
      heartbeat_status = heartbeat_status;
      last_heartbeat_at = last_heartbeat_at;
      next_heartbeat_at = next_heartbeat_at;
      last_check_out_at = last_check_out_at;
      created = created;
      updated = updated;
    })

  -- UUID(str(attrs["machine_id"])), where `attrs` may be any value
  unfoldable pub owner_of : Json → Str → Result Str
  unfolding index_by uuid_of
  owner_of attrs key = do raw ← index_by attrs key; uuid_of rd raw

  unfoldable pub parse_component_resource : Json → Result ComponentResource
  unfolding attributes_of metadata_of as_object get_or id_of instant_of owner_of
  parse_component_resource data_member = do
    resource ← as_object data_member
    id ← id_of rd data_member
    machine_id ← owner_of (attributes_of resource) (codes "machine_id")
    attrs ← as_object (attributes_of resource)
    created ← instant_of rd attrs (codes "created")
    updated ← instant_of rd attrs (codes "updated")
    ok (record {
      id = id;
      machine_id = machine_id;
      fingerprint = get_or attrs (codes "fingerprint") (str []);
      name = get_or attrs (codes "name") (str []);
      metadata = metadata_of attrs;
      created = created;
      updated = updated;
    })

  unfoldable pub parse_process_resource : Json → Result ProcessResource
  unfolding attributes_of metadata_of as_object get_or id_of instant_of owner_of
  parse_process_resource data_member = do
    resource ← as_object data_member
    id ← id_of rd data_member
    machine_id ← owner_of (attributes_of resource) (codes "machine_id")
    attrs ← as_object (attributes_of resource)
    last_heartbeat_at ← instant_of rd attrs (codes "last_heartbeat_at")
    created ← instant_of rd attrs (codes "created")
    updated ← instant_of rd attrs (codes "updated")
    ok (record {
      id = id;
      machine_id = machine_id;
      pid = get_or attrs (codes "pid") (str []);
      metadata = metadata_of attrs;
      last_heartbeat_at = last_heartbeat_at;
      created = created;
      updated = updated;
    })

  unfoldable pub parse_entitlement : Json → Result Entitlement
  unfolding attributes_of metadata_of as_object get_or id_of instant_of
  parse_entitlement data_member = do
    resource ← as_object data_member
    id ← id_of rd data_member
    attrs ← as_object (attributes_of resource)
    created ← instant_of rd attrs (codes "created")
    updated ← instant_of rd attrs (codes "updated")
    ok (record {
      id = id;
      name = get_or attrs (codes "name") (str []);
      code = get_or attrs (codes "code") (str []);
      kind = get_or attrs (codes "kind") (str (codes "flag"));
      metadata = metadata_of attrs;
      created = created;
      updated = updated;
      inherited = get_or attrs (codes "inherited") null;
      max_value = get_or attrs (codes "max_value") null;
      current_value = get_or attrs (codes "current_value") null;
    })

  unfoldable pub parse_release_resource : Json → Result ReleaseResource
  unfolding attributes_of metadata_of as_object get_or id_of instant_of owner_of
  parse_release_resource data_member = do
    resource ← as_object data_member
    id ← id_of rd data_member
    product_id ← owner_of (attributes_of resource) (codes "productId")
    attrs ← as_object (attributes_of resource)
    created ← instant_of rd attrs (codes "created")
    updated ← instant_of rd attrs (codes "updated")
    ok (record {
      id = id;
      product_id = product_id;
      version = get_or attrs (codes "version") (str []);
      channel = get_or attrs (codes "channel") (str []);
      status = get_or attrs (codes "status") (str []);
      name = get_or attrs (codes "name") null;
      tag = get_or attrs (codes "tag") null;
      metadata = metadata_of attrs;
      created = created;
      updated = updated;
    })

  unfoldable pub parse_artifact_resource : Json → Result ArtifactResource
  unfolding metadata_of get_or uuid_of instant_of artifact_object
  parse_artifact_resource data_member = do
    (raw_id, attrs) ← artifact_object data_member
    id ← uuid_of rd raw_id
    created ← instant_of rd attrs (codes "created")
    updated ← instant_of rd attrs (codes "updated")
    ok (record {
      id = id;
      filename = get_or attrs (codes "filename") (str []);
      status = get_or attrs (codes "status") (str []);
      filetype = get_or attrs (codes "filetype") null;
      filesize = get_or attrs (codes "filesize") null;
      checksum = get_or attrs (codes "checksum") null;
      platform = get_or attrs (codes "platform") null;
      arch = get_or attrs (codes "arch") null;
      signature = get_or attrs (codes "signature") null;
      redirect_url = get_or attrs (codes "redirectUrl") null;
      metadata = metadata_of attrs;
      created = created;
      updated = updated;
    })

  unfoldable pub parse_signing_key_resource : Json → Result SigningKey
  unfolding as_object or_empty get_or instant_of subscript
  parse_signing_key_resource data_member = do
    resource ← as_object data_member
    raw_id ← subscript resource (codes "id")
    attributes ← as_object (or_empty (get_or resource (codes "attributes") null))
    created ← instant_of rd attributes (codes "created")
    retired ← instant_of rd attributes (codes "retired")
    ok (record {
      kid = to_str rd.repr raw_id;
      public_key = to_str rd.repr (get_or attributes (codes "publicKey") (str []));
      algorithm = to_str rd.repr (get_or attributes (codes "algorithm") (str ed25519_algorithm));
      status = to_str rd.repr (get_or attributes (codes "status") (str active_status));
      created = created;
      retired = retired;
    })
