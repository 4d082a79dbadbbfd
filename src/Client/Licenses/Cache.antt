-- ===== src/Client/Licenses/Cache.antt =====
-- The entitlements that a license keeps after it has asked for them.
use tamga_python.Prelude.{◌≡◌, refl, ap, inl, inr, Bool, some, List, any, Option-cases}
use tamga_python.Python.Str.{Str}
use tamga_python.Transport.{Outcome, returned, raised}
use tamga_python.Models.License.{LicenseResource}
use tamga_python.Models.Records.{Entitlement}
use tamga_python.Client.Request.{Log, Context}
use tamga_python.Client.Session.{return, proceed}
use tamga_python.Client.Entitlements.{list_all}
use tamga_python.Client.Licenses.{refresh_entitlements, has_code, has_entitlement}

fst-eq {ℓ κ} :
    {A : Type ℓ} {B : Type κ} {a c : A} {b d : B}
    → ◌≡◌ {A = Outcome (A × B)} (returned (a, b)) (returned (c, d))
    → c ≡ a
fst-eq h = cc h

snd-eq {ℓ κ} :
    {A : Type ℓ} {B : Type κ} {a c : A} {b d : B}
    → ◌≡◌ {A = Outcome (A × B)} (returned (a, b)) (returned (c, d))
    → d ≡ b
snd-eq h = cc h

abbrev cached : LicenseResource → List Entitlement → LicenseResource
cached resource cache = record resource { entitlements_cache = some cache }

module _ (ctx : Context) where
  -- The license is as it was but for what it keeps, the answer is read off that, and no question
  -- about the license sends a request any more.
  pub record Cached (resource fresh : LicenseResource) (code : Str) (found : Bool) : Type 0 where
    pub cache : List Entitlement
    pub kept : fresh ≡ cached resource cache
    pub answer : found ≡ any (has_code ctx code) cache
    pub settled :
        (other : Str) (log : Log)
        → has_entitlement ctx fresh other log
          ≡ (returned (fresh, any (has_code ctx other) cache), log)

  settle :
      (fresh : LicenseResource) (cache : List Entitlement) (other : Str) (log : Log)
      → fresh.entitlements_cache ≡ some cache
      → has_entitlement ctx fresh other log
        ≡ (returned (fresh, any (has_code ctx other) cache), log)
  unfolding has_entitlement
  settle fresh cache other log h = rw h refl

  keep :
      (resource fresh : LicenseResource) (code : Str) (found : Bool) (cache : List Entitlement)
      → fresh ≡ cached resource cache
      → found ≡ any (has_code ctx code) cache
      → Cached resource fresh code found
  keep resource fresh code found cache same answer = record {
    cache = cache;
    kept = same;
    answer = answer;
    settled = λ other log.
        settle fresh cache other log (ap (λ (r : LicenseResource). r.entitlements_cache) same);
  }

  abbrev answered :
      LicenseResource
      → Str
      → Outcome (List Entitlement) × Log
      → Outcome (LicenseResource × Bool) × Log
  answered resource code o =
      proceed {B = LicenseResource × Bool}
        (proceed {B = LicenseResource × List Entitlement} o
          (λ items. return (cached resource items, items)))
        (λ (license, items). return (license, any (has_code ctx code) items))

  refreshed :
      (resource : LicenseResource) (code : Str) (o : Outcome (List Entitlement) × Log)
      (fresh : LicenseResource) (found : Bool)
      → (answered resource code o).0 ≡ returned (fresh, found)
      → Cached resource fresh code found
  refreshed resource code (raised x, log) fresh found h = absurd (cc h)
  refreshed resource code (returned cache, log) fresh found h =
      keep resource fresh code found cache (fst-eq h) (snd-eq h)

  -- Once a license has answered a question about an entitlement, it keeps the list that the answer
  -- is read off, and is otherwise as it was: it answers every further question from that list, and
  -- sends nothing for it.
  pub has_entitlement-Cached :
      (resource fresh : LicenseResource) (code : Str) (found : Bool) (log : Log)
      → (has_entitlement ctx resource code log).0 ≡ returned (fresh, found)
      → Cached resource fresh code found
  unfolding has_entitlement refresh_entitlements
  has_entitlement-Cached resource fresh code found log h =
      elim (Option-cases (resource.entitlements_cache)) [
        | inr (cache, e) ↦
            let now = rw e at h in keep resource fresh code found cache (fst-eq now) (snd-eq now)
        | inl e ↦ elim (Option-cases (resource.entitlements_fetcher)) [
          | inl f ↦ absurd (cc (rw (e, f) at h))
          | inr (license_id, f) ↦
              refreshed resource code (list_all ctx license_id log) fresh found (rw (e, f) at h)
        ]
      ]
