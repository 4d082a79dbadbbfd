-- ===== src/Client/MachineBodies.antt =====
-- What the calls of `MachinesClient` of client.py send and return: bodies, parameters and the page.
use tamga_python.Prelude.{Option, none, some, List, [], ◌∷◌}
use tamga_python.Python.Int.{ℤ}
use tamga_python.Python.Str.{Str, codes}
use tamga_python.Python.Json.{Json, int, str, obj, Fields, end, field}
use tamga_python.Python.Dumps.{int_text}
use tamga_python.Transport.{Dict}
use tamga_python.Models.Records.{MachineReading}
use tamga_python.Client.Pages.{effective_limit, with_param}

-- The attributes of a machine that may be left out.
pub record MachineAttributes : Type 0 where
  pub name : Option Str
  pub ip : Option Str
  pub hostname : Option Str
  pub platform : Option Str
  pub cores : Option ℤ
  pub memory : Option ℤ
  pub disk : Option ℤ
  pub metadata : Option Fields

-- if v is not None: attributes[k] = v, before the later members
unfoldable pub with_member : Str → Option Json → Fields → Fields
with_member key none rest = rest
with_member key (some v) rest = field key v rest

abbrev pub text_json : Option Str → Option Json
text_json none = none
text_json (some s) = some (str s)

abbrev pub int_json : Option ℤ → Option Json
int_json none = none
int_json (some n) = some (int n)

abbrev pub obj_json : Option Fields → Option Json
obj_json none = none
obj_json (some fields) = some (obj fields)

unfoldable pub given_attributes : MachineAttributes → Fields
unfolding with_member
given_attributes attrs = with_member (codes "name") (text_json attrs.name) (
    with_member (codes "ip") (text_json attrs.ip) (
      with_member (codes "hostname") (text_json attrs.hostname) (
        with_member (codes "platform") (text_json attrs.platform) (
          with_member (codes "cores") (int_json attrs.cores) (
            with_member (codes "memory") (int_json attrs.memory) (
              with_member (codes "disk") (int_json attrs.disk)
                (with_member (codes "metadata") (obj_json attrs.metadata) end)))))))

-- {"license": {"data": {"type": "licenses", "id": ...}}}
abbrev pub license_relationship : Str → Json
license_relationship license_id = obj (
    field (codes "license")
      (obj (
        field (codes "data")
          (obj (
            field (codes "type") (str (codes "licenses"))
              (field (codes "id") (str license_id) end)))
          end))
      end)

unfoldable pub create_body : Str → Str → MachineAttributes → Json
unfolding given_attributes
create_body license_id fingerprint attrs = obj (
    field (codes "data")
      (obj (
        field (codes "type") (str (codes "machines")) (
          field (codes "attributes")
            (obj (field (codes "fingerprint") (str fingerprint) (given_attributes attrs)))
            (field (codes "relationships") (license_relationship license_id) end))))
      end)

unfoldable pub update_body : MachineAttributes → Json
unfolding given_attributes
update_body attrs = obj (
    field (codes "data")
      (obj (
        field (codes "type") (str (codes "machines"))
          (field (codes "attributes") (obj (given_attributes attrs)) end)))
      end)

-- The page of `list`; OffsetPage with machines as they were read.
pub record MachinePage : Type 0 where
  pub items : List MachineReading
  pub page_number : ℤ
  pub page_size : ℤ
  pub total : ℤ
  pub total_pages : ℤ

-- the parameters of `list`: the page, the search term, the license and the platform
unfoldable pub list_params : ℤ → Option ℤ → Option Str → Option Str → Option Str → Dict
unfolding int_text
list_params number size search license_id platform =
    (codes "page[number]", int_text number)
    ∷ (codes "page[size]", int_text (effective_limit size))
    ∷ with_param (codes "filter[q]") search (
        with_param (codes "filter[license]") license_id
          (with_param (codes "filter[platform]") platform []))
