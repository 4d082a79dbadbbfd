-- ===== src/Checkout/Claims/Expiry.antt =====
-- When a file has expired.
use tamga_python.Prelude.{
  ◌≡◌, sym, ◌∙◌, ◌≤◌, ◌<◌, ◌+◌, inl, inr, Bool, true, false, not, Option, none, some, arith,
  Option-cases,
}
use tamga_python.Python.Int.{ℤ, pos, pos_part, neg_part, ◌-ℤ◌, ltb_ℤ}
use tamga_python.Python.Exc.{Exc, ok, err, guard}
use tamga_python.Checkout.Claims.{
  LicenseFileClaims, FileKind, expired_error, reference, enforce_expiry,
}

-- The file has no expiry, or its expiry plus the skew of 60 seconds is not in the past.
abbrev pub IsCurrent : LicenseFileClaims → ℤ → Type 0
IsCurrent claims at =
    (exp : ℤ) → claims.exp ≡ some exp → pos_part at + neg_part exp ≤ pos_part exp + neg_part at + 60

within_iff :
    (exp at : ℤ) (e : Exc)
    → (guard (not (ltb_ℤ exp (at -ℤ pos 60))) e ≡ ok tt
        → pos_part at + neg_part exp ≤ pos_part exp + neg_part at + 60)
      × (pos_part at + neg_part exp ≤ pos_part exp + neg_part at + 60
          → guard (not (ltb_ℤ exp (at -ℤ pos 60))) e ≡ ok tt)
unfolding ◌-ℤ◌
within_iff exp at e = (λ h. ground arith, λ h. ground arith)

enforce_expiry-none :
    (kind : FileKind) (claims : LicenseFileClaims) (now : Option ℤ) (clock : ℤ)
    → claims.exp ≡ none
    → enforce_expiry kind claims now clock ≡ ok tt
unfolding enforce_expiry
enforce_expiry-none kind claims now clock e = rw e

enforce_expiry-some :
    (kind : FileKind) (claims : LicenseFileClaims) (now : Option ℤ) (clock exp : ℤ)
    → claims.exp ≡ some exp
    → enforce_expiry kind claims now clock
      ≡ guard (not (ltb_ℤ exp (reference now clock -ℤ pos 60))) (expired_error kind exp)
unfolding enforce_expiry
enforce_expiry-some kind claims now clock exp e = rw e

-- The check passes exactly when the claims have no expiry, or their expiry plus the skew of 60
-- seconds is not in the past of the given time, or of the clock where none is given.
pub enforce_expiry_iff :
    (kind : FileKind) (claims : LicenseFileClaims) (now : Option ℤ) (clock : ℤ)
    → (enforce_expiry kind claims now clock ≡ ok tt → IsCurrent claims (reference now clock))
      × (IsCurrent claims (reference now clock) → enforce_expiry kind claims now clock ≡ ok tt)
enforce_expiry_iff kind claims now clock = elim (Option-cases claims.exp) [
  | inl e ↦ (λ h exp k. cc, λ h. enforce_expiry-none kind claims now clock e)
  | inr (exp, e) ↦
      let step = enforce_expiry-some kind claims now clock exp e in
      let (to, from) = within_iff exp (reference now clock) (expired_error kind exp) in
      (
        λ h exp' k. let same : exp ≡ exp' = cc in rw (← same) (to (sym step ∙ h)),
        λ h. step ∙ from (h exp e),
      )
]

expired_name : (b : Bool) (e e' : Exc) → guard b e ≡ err e' → e' ≡ e
expired_name true e e' h = cc
expired_name false e e' h = cc

past :
    (exp at : ℤ) (e e' : Exc)
    → guard (not (ltb_ℤ exp (at -ℤ pos 60))) e ≡ err e'
    → pos_part exp + neg_part at + 60 < pos_part at + neg_part exp
unfolding ◌-ℤ◌
past exp at e e' h = ground arith

-- If the check fails, it names the claimed expiry, which is in the past by more than the skew of
-- 60 seconds.
pub enforce_expiry-expired :
    (kind : FileKind) (claims : LicenseFileClaims) (now : Option ℤ) (clock : ℤ) (e : Exc)
    → enforce_expiry kind claims now clock ≡ err e
    → (exp : ℤ) × (claims.exp ≡ some exp)
      × (e ≡ expired_error kind exp)
      × (pos_part exp + neg_part (reference now clock) + 60
          < pos_part (reference now clock) + neg_part exp)
unfolding ◌-ℤ◌
enforce_expiry-expired kind claims now clock e h = elim (Option-cases claims.exp) [
  | inl k ↦ cc (enforce_expiry-none kind claims now clock k)
  | inr (exp, k) ↦
      let step = enforce_expiry-some kind claims now clock exp k in
      let failed : guard (not (ltb_ℤ exp (reference now clock -ℤ pos 60))) (expired_error kind exp)
          ≡ err e =
        sym step ∙ h in
      (
        exp,
        k,
        expired_name (not (ltb_ℤ exp (reference now clock -ℤ pos 60))) (expired_error kind exp) e
            failed,
        past exp (reference now clock) (expired_error kind exp) e failed,
      )
]
