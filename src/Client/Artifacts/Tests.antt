-- ===== src/Client/Artifacts/Tests.antt =====
-- The download of an artifact.
use tamga_python.Prelude.{◌≡◌, refl, none, some, [], ◌∷◌, if◌then◌else◌}
use tamga_python.Python.Str.{codes, str_eq}
use tamga_python.Transport.{bearer, returned}
use tamga_python.Models.Resources.{parse_artifact_resource}
use tamga_python.Client.Request.{Context}
use tamga_python.Client.Artifacts.{download, get_download_url, get_download_url}
use tamga_python.Client.Artifacts.Download.{Spares, Downloaded, download-Downloaded}
use tamga_python.Client.Samples.{client_of, answer_with}

-- A server that names the URL "s", and a storage host that answers there with one byte.
abbrev artifact_client : Context
artifact_client = client_of (some (bearer (codes "t"))) (λ request.
    if str_eq request.target (codes "s") then answer_with (7 ∷ []) else answer_with (5 ∷ []))

spared : Spares (codes "redirect") artifact_client.config.default_auth
spared value name e = absurd (cc e)

downloads : (download artifact_client (codes "a") none []).0 ≡ returned (7 ∷ [])
unfolding download parse_artifact_resource
downloads = refl

download-Downloaded_example :
    Downloaded artifact_client
      (codes "a")
      (get_download_url artifact_client (codes "a") none []).0
      []
      (download artifact_client (codes "a") none []).0
      (download artifact_client (codes "a") none []).1
download-Downloaded_example = download-Downloaded artifact_client (codes "a") none spared []
