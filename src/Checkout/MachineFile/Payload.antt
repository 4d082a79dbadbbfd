-- ===== src/Checkout/MachineFile/Payload.antt =====
-- What the opened payload of a machine file has to hold.
use tamga_python.Prelude.{◌≡◌, ◌∙◌, ap, Option, none, some}
use tamga_python.Python.Int.{ℤ}
use tamga_python.Python.Str.{Bytes, codes}
use tamga_python.Python.Json.{Json, Fields, get, as_dict, index_by}
use tamga_python.Python.Exc.{ok, >>=-eq-ok, or_value_error}
use tamga_python.Models.Machine.{MachineResource}
use tamga_python.Checkout.Runtime.{Runtime}
use tamga_python.Checkout.Envelope.{json_value}
use tamga_python.Checkout.Claims.{
  LicenseFileClaims, machine_file, reference, parse_claims, enforce_expiry,
}
use tamga_python.Checkout.Claims.Expiry.{IsCurrent, enforce_expiry_iff}
use tamga_python.Checkout.LicenseFile.{missing_data}
use tamga_python.Checkout.LicenseFile.Sound.{json_value-eq-ok, missing_data-eq-ok}
use tamga_python.Checkout.MachineFile.{attributes_of, machine_from, interpret}

or_value_error-eq-ok {ℓ} :
    {A : Type ℓ} (o : Option A) {a : A} → or_value_error o ≡ ok a → o ≡ some a
unfolding or_value_error
or_value_error-eq-ok none h = cc
or_value_error-eq-ok (some a) h = cc

module _ (rt : Runtime) (plaintext : Bytes) (now : Option ℤ) where
  -- The payload is a JSON object with these claims, which are current, and this machine.
  pub record Payload (machine : MachineResource) (claims : LicenseFileClaims) : Type 0 where
    pub parsed : Json
    pub loaded : rt.json_loads plaintext ≡ ok parsed
    pub claimed : parse_claims rt.repr parsed ≡ ok claims
    pub current : IsCurrent claims (reference now rt.clock)
    pub data_member : Json
    pub present : index_by parsed (codes "data") ≡ ok data_member
    pub fields : Fields
    pub is_object : as_dict data_member ≡ some fields
    pub id : Json
    pub has_id : get fields (codes "id") ≡ some id
    pub attributes : Fields
    pub has_attributes : attributes_of (get fields (codes "attributes")) ≡ ok attributes
    pub same : machine_from id attributes ≡ machine

  pub interpret-Payload :
      (machine : MachineResource) (claims : LicenseFileClaims)
      → interpret rt plaintext now ≡ ok (machine, claims)
      → Payload machine claims
  unfolding interpret
  interpret-Payload machine claims h =
      let (parsed, loaded, h2) = >>=-eq-ok (json_value (rt.json_loads plaintext)) _ h in
      let (data_member, present, h3) =
        >>=-eq-ok (missing_data (index_by parsed (codes "data"))) _ h2 in
      let (fields, is_object, h4) = >>=-eq-ok (or_value_error (as_dict data_member)) _ h3 in
      let (claims', claimed, h5) = >>=-eq-ok (parse_claims rt.repr parsed) _ h4 in
      let (u, current, h6) = >>=-eq-ok (enforce_expiry machine_file claims' now rt.clock) _ h5 in
      let (id, has_id, h7) = >>=-eq-ok (or_value_error (get fields (codes "id"))) _ h6 in
      let (attributes, has_attributes, h8) =
        >>=-eq-ok (attributes_of (get fields (codes "attributes"))) _ h7 in
      let pair : ◌≡◌ {A = MachineResource × LicenseFileClaims} (machine_from id attributes, claims')
          (machine, claims) =
        cc h8 in
      let same_claims : claims' ≡ claims =
        ap (λ (p : MachineResource × LicenseFileClaims). p.1) pair in
      record {
        parsed = parsed;
        loaded = json_value-eq-ok _ loaded;
        claimed = claimed ∙ ap ok same_claims;
        current =
            rw (← same_claims) ((enforce_expiry_iff machine_file claims' now rt.clock).0 current);
        data_member = data_member;
        present = missing_data-eq-ok _ present;
        fields = fields;
        is_object = or_value_error-eq-ok _ is_object;
        id = id;
        has_id = or_value_error-eq-ok _ has_id;
        attributes = attributes;
        has_attributes = has_attributes;
        same = ap (λ (p : MachineResource × LicenseFileClaims). p.0) pair;
      }

  pub Payload-interpret :
      (machine : MachineResource) (claims : LicenseFileClaims)
      → Payload machine claims
      → interpret rt plaintext now ≡ ok (machine, claims)
  unfolding interpret json_value missing_data or_value_error
  Payload-interpret machine claims p = rw (
    p.loaded,
    p.present,
    p.is_object,
    p.claimed,
    (enforce_expiry_iff machine_file claims now rt.clock).1 p.current,
    p.has_id,
    p.has_attributes,
    p.same,
  )
