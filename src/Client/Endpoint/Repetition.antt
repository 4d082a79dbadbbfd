-- ===== src/Client/Endpoint/Repetition.antt =====
-- Which operations the request loop may repeat.
use tamga_python.Prelude.{
  ◌≡◌, refl, sym, ap, ◌∙◌, ℕ, zero, suc, ◌+◌, ◌-◌, ◌≤◌, Bool, true, false, not, ◌||◌, List, [], ◌∷◌,
  ◌++◌, arith, leb, length, drop, length-append, append_assoc, any, all, All, All-of_all,
  Bool-cases, inl, inr,
}
use tamga_python.Python.Str.{Str, codes, str_eq, str_eq_iff, str_eq_self, ends_with}
use tamga_python.Client.Retry.{upper, retryable_post_suffixes, is_retryable}
use tamga_python.Client.Endpoint.{Operation, endpoint}

module _ {ℓ} {A : Type ℓ} where
  drop_past : (m n : ℕ) (xs ys : List A) → m ≡ length xs + n → drop m (xs ++ ys) ≡ drop n ys
  drop_past m n [] ys h = ap (λ (k : ℕ). drop k ys) (omega arith)
  drop_past zero n (x ∷ xs) ys h = absurd (omega arith)
  drop_past (suc m) n (x ∷ xs) ys h = drop_past m n xs ys (omega arith)

  drop_within : (m : ℕ) (xs ys : List A) → m ≤ length xs → drop m (xs ++ ys) ≡ drop m xs ++ ys
  drop_within zero xs ys h = refl
  drop_within (suc m) [] ys h = absurd (omega arith)
  drop_within (suc m) (x ∷ xs) ys h = drop_within m xs ys (omega arith)

-- A text ends like its tail: on endings that the tail is long enough for, and on longer ones that
-- do not end with the tail themselves.
decides : Str → Str → Bool
decides s t = leb (length t) (length s) || not (ends_with t s)

ends_with-longer :
    (p s t : Str) → length s ≤ length t → ends_with (p ++ s) t ≡ true → ends_with t s ≡ true
unfolding ends_with
ends_with-longer p s t h e =
    let total : length (p ++ s) ≡ length p + length s = length-append p s in
    let fits : length t ≤ length (p ++ s) = ground arith in
    let same : drop (length (p ++ s) - length t) (p ++ s) ≡ t =
      (str_eq_iff (drop (length (p ++ s) - length t) (p ++ s)) t).0 (ground arith) in
    let cut : drop (length (p ++ s) - length t) p ++ s ≡ t =
      sym (drop_within (length (p ++ s) - length t) p s (omega arith)) ∙ same in
    let front = drop (length (p ++ s) - length t) p in
    let size : length t - length s ≡ length front =
      omega (arith, ap (λ (l : Str). length l) cut, length-append front s) in
    let tail : drop (length t - length s) t ≡ s = rw (← cut) (
      drop_past (length (front ++ s) - length s) 0 front s
        (omega (arith, length-append front s))) in
    rw tail (ground (arith, str_eq_self s))

ends_with-within : (p s t : Str) → length t ≤ length s → ends_with (p ++ s) t ≡ ends_with s t
unfolding ends_with
ends_with-within p s t h =
    let total : length (p ++ s) ≡ length p + length s = length-append p s in
    let fits : leb (length t) (length (p ++ s)) ≡ true = ground arith in
    let fits' : leb (length t) (length s) ≡ true = ground arith in
    rw (fits, fits', drop_past (length (p ++ s) - length t) (length s - length t) p s (omega arith))

ends_with-short : (s t : Str) → leb (length t) (length s) ≡ false → ends_with s t ≡ false
unfolding ends_with
ends_with-short s t h = rw h

ends_with-tail : (p s t : Str) → decides s t ≡ true → ends_with (p ++ s) t ≡ ends_with s t
unfolding decides
ends_with-tail p s t h = elim (Bool-cases (leb (length t) (length s))) [
  | inl e ↦ ends_with-within p s t (ground arith)
  | inr e ↦ elim (Bool-cases (ends_with (p ++ s) t)) [
    | inl yes' ↦ absurd (cc (ends_with-longer p s t (ground arith) yes', rw e at h))
    | inr no' ↦ no' ∙ sym (ends_with-short s t e)
  ]
]

any_ending :
    (p s : Str) (endings : List Str)
    → All (λ t. decides s t ≡ true) endings
    → any (ends_with (p ++ s)) endings ≡ any (ends_with s) endings
any_ending p s [] h = refl
any_ending p s (t ∷ endings) h = rw (ends_with-tail p s t h.0, any_ending p s endings h.1)

-- What repeating a request does: reading changes nothing; the licensing actions, of which the last
-- one counts, may be repeated; all else must not happen twice.
pub data Effect : Type 0 where
  reads repeatable once : Effect

abbrev pub may_repeat : Effect → Bool
may_repeat reads = true
may_repeat repeatable = true
may_repeat once = false

abbrev pub effect : Operation → Effect
effect Operation.validate_by_key = repeatable
effect (Operation.validate_by_id id) = repeatable
effect (Operation.check_in id) = repeatable
effect (Operation.check_out_license id) = repeatable
effect (Operation.check_out_machine id) = repeatable
effect (Operation.ping_heartbeat id) = repeatable
effect (Operation.reset_heartbeat id) = repeatable
effect (Operation.ping_process id) = repeatable
effect Operation.create_machine = once
effect Operation.create_component = once
effect Operation.create_process = once
effect (Operation.update_machine id) = once
effect (Operation.delete_machine id) = once
effect (Operation.delete_process id) = once
effect (Operation.generate_offline_proof id) = once
effect (Operation.increment_usage license_id id) = once
effect (Operation.decrement_usage license_id id) = once
effect (Operation.reset_usage license_id id) = once
effect _ = reads

-- A path that ends with `tail`, of a POST.
post_ending :
    (p s : Str)
    → all (decides s) retryable_post_suffixes ≡ true
    → is_retryable (codes "POST") (p ++ s) ≡ any (ends_with s) retryable_post_suffixes
unfolding is_retryable
post_ending p s h =
    any_ending p s retryable_post_suffixes (All-of_all (decides s) retryable_post_suffixes h)

post_of_id :
    (p id s : Str)
    → all (decides s) retryable_post_suffixes ≡ true
    → is_retryable (codes "POST") (p ++ (id ++ s)) ≡ any (ends_with s) retryable_post_suffixes
post_of_id p id s h = rw (← append_assoc p id s) (post_ending (p ++ id) s h)

post_of_ids :
    (p id q id' s : Str)
    → all (decides s) retryable_post_suffixes ≡ true
    → is_retryable (codes "POST") (p ++ (id ++ (q ++ (id' ++ s))))
      ≡ any (ends_with s) retryable_post_suffixes
post_of_ids p id q id' s h =
    rw (← append_assoc q id' s, ← append_assoc id (q ++ id') s)
      (post_of_id p (id ++ (q ++ id')) s h)

-- The request loop repeats an operation after an answer of 429 exactly when it only reads or is one
-- of the licensing actions, whatever the ids in its path are: a creation, an update, a deletion, a
-- proof and a change of a meter are sent once.
pub is_retryable-effect :
    (op : Operation) → is_retryable (endpoint op).method (endpoint op).path ≡ may_repeat (effect op)
unfolding is_retryable upper decides ends_with str_eq
is_retryable-effect Operation.validate_by_key = refl
is_retryable-effect (Operation.validate_by_id id) =
    post_of_id (codes "/licenses/") id (codes "/actions/validate") refl
is_retryable-effect (Operation.check_in id) =
    post_of_id (codes "/licenses/") id (codes "/actions/check-in") refl
is_retryable-effect (Operation.check_out_license id) =
    post_of_id (codes "/licenses/") id (codes "/actions/check-out") refl
is_retryable-effect (Operation.check_out_machine id) =
    post_of_id (codes "/machines/") id (codes "/actions/check-out") refl
is_retryable-effect (Operation.ping_heartbeat id) =
    post_of_id (codes "/machines/") id (codes "/actions/ping-heartbeat") refl
is_retryable-effect (Operation.reset_heartbeat id) =
    post_of_id (codes "/machines/") id (codes "/actions/reset-heartbeat") refl
is_retryable-effect (Operation.ping_process id) =
    post_of_id (codes "/processes/") id (codes "/actions/ping") refl
is_retryable-effect (Operation.generate_offline_proof id) =
    post_of_id (codes "/machines/") id (codes "/actions/generate-offline-proof") refl
is_retryable-effect (Operation.increment_usage license_id id) =
    post_of_ids (codes "/licenses/") license_id (codes "/entitlements/") id
      (codes "/actions/increment") refl
is_retryable-effect (Operation.decrement_usage license_id id) =
    post_of_ids (codes "/licenses/") license_id (codes "/entitlements/") id
      (codes "/actions/decrement") refl
is_retryable-effect (Operation.reset_usage license_id id) =
    post_of_ids (codes "/licenses/") license_id (codes "/entitlements/") id (codes "/actions/reset")
      refl
is_retryable-effect Operation.create_machine = refl
is_retryable-effect Operation.create_component = refl
is_retryable-effect Operation.create_process = refl
is_retryable-effect Operation.list_machines = refl
is_retryable-effect Operation.list_signing_keys = refl
is_retryable-effect Operation.check_for_upgrade = refl
is_retryable-effect (Operation.update_machine id) = refl
is_retryable-effect (Operation.delete_machine id) = refl
is_retryable-effect (Operation.delete_process id) = refl
is_retryable-effect (Operation.quick_validate id) = refl
is_retryable-effect (Operation.get_license id) = refl
is_retryable-effect (Operation.get_license_policy id) = refl
is_retryable-effect (Operation.check_out_license_bytes id) = refl
is_retryable-effect (Operation.get_machine id) = refl
is_retryable-effect (Operation.check_out_machine_bytes id) = refl
is_retryable-effect (Operation.list_components id) = refl
is_retryable-effect (Operation.list_processes id) = refl
is_retryable-effect (Operation.list_entitlements id) = refl
is_retryable-effect (Operation.get_policy id) = refl
is_retryable-effect (Operation.list_artifacts id) = refl
is_retryable-effect (Operation.get_artifact id) = refl
is_retryable-effect (Operation.get_download_url id) = refl
is_retryable-effect (Operation.get_entitlement license_id id) = refl
