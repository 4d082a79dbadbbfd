-- ===== src/Client/Pages/Tests.antt =====
-- Walks of a list of components.
use tamga_python.Prelude.{◌≡◌, refl, ℕ, false, none, some, List, [], ◌∷◌, arith, replicate}
use tamga_python.Python.Int.{pos}
use tamga_python.Python.Str.{Str, codes, str_eq, str_eq-apart}
use tamga_python.Python.Json.{Json, obj, end}
use tamga_python.Transport.{returned, get_item}
use tamga_python.Models.Resources.{parse_component_resource}
use tamga_python.Models.Records.{ComponentResource}
use tamga_python.Client.Endpoint.{Operation}
use tamga_python.Client.Samples.{component_client, short_client, sample_reader}
use tamga_python.Client.Pages.{call_items, keyset_params}
use tamga_python.Client.Pages.Walk.{walk, Answers, Serves, walk-rows, walk-cut}
use tamga_python.Client.Pages.Rows.{Keyed}

abbrev row : Str → ComponentResource
row id = record {
  id = id;
  machine_id = codes "m";
  fingerprint = Json.str [];
  name = Json.str [];
  metadata = obj end;
  created = none;
  updated = none;
}

abbrev rows : List ComponentResource
rows = row (codes "b") ∷ row (codes "c") ∷ row (codes "d") ∷ []

abbrev id_of : ComponentResource → Str
id_of component = component.id

abbrev rows_of : ℕ → List ComponentResource
rows_of n = replicate n (row (codes "b"))

abbrev listing : Operation
listing = Operation.list_components (codes "m")

serves :
    Serves component_client listing
      (parse_component_resource sample_reader)
      id_of
      (some (pos 2))
      rows
unfolding call_items get_item keyset_params parse_component_resource
serves = (λ log. refl, (λ log. refl, (λ log. refl, (λ log. refl, tt))))

distinct : Keyed id_of rows
unfolding str_eq
distinct =
    let apart = λ (a b : Str) (h : str_eq a b ≡ false). str_eq-apart a b h in
    (
      (apart (codes "b") (codes "c") refl, (apart (codes "b") (codes "d") refl, tt)),
      ((apart (codes "c") (codes "d") refl, tt), (tt, tt)),
    )

walk-rows_example :
    (walk component_client listing
      (parse_component_resource sample_reader)
      id_of
      (some (pos 2))
      4
      none
      []).0
    ≡ returned rows
walk-rows_example =
    walk-rows component_client listing (parse_component_resource sample_reader) id_of (some (pos 2))
      rows distinct serves (omega arith) []

wide_page :
    Answers short_client listing
      (parse_component_resource sample_reader)
      id_of
      (some (pos 101))
      (rows_of 120)
      none
unfolding call_items keyset_params parse_component_resource
wide_page log = refl

walk-cut_example :
    (walk short_client listing
      (parse_component_resource sample_reader)
      id_of
      (some (pos 101))
      9
      none
      []).0
    ≡ returned (rows_of 100)
walk-cut_example =
    walk-cut short_client listing (parse_component_resource sample_reader) id_of (some (pos 101))
      (rows_of 120) wide_page (omega arith) 8 []
