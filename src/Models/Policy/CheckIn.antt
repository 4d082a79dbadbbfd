-- ===== src/Models/Policy/CheckIn.antt =====
-- Which texts `CheckInInterval` of models/policy.py takes.
use tamga_python.Prelude.{
  ◌≡◌, refl, sym, ap, ◌∙◌, ◌⊎◌, ◌↔◌, inl, inr, Bool-cases, Option-cases, some, [], ◌∷◌,
}
use tamga_python.Python.Str.{Str, codes, str_eq, str_eq_iff, strip, is_space}
use tamga_python.Python.Json.{str}
use tamga_python.Models.SigningKey.{lower}
use tamga_python.Models.Enum.{Members, member_named}
use tamga_python.Models.Policy.Strategies.{
  CheckInInterval, daily, weekly, monthly, yearly, check_in_intervals, legacy_check_in_intervals,
  adverbial, missing_interval, check_in_interval_of_text,
}

-- The table holds the member under the value.
abbrev Entry : {A : Type 0} → Members A → Str → A → Type 0
Entry [] s a = ⊥
Entry ((value, member) ∷ members) s a = ((s ≡ value) × (a ≡ member)) ⊎ Entry members s a

member_named-Entry :
    {A : Type 0} (members : Members A) (s : Str) (a : A)
    → member_named members s ≡ some a
    → Entry members s a
unfolding member_named
member_named-Entry [] s a h = absurd (cc h)
member_named-Entry ((value, member) ∷ members) s a h = elim (Bool-cases (str_eq value s)) [
  | inl e ↦ inl (sym ((str_eq_iff value s).0 e), cc (rw e at h))
  | inr e ↦ inr (member_named-Entry members s a (rw e at h))
]

abbrev pub adverb : CheckInInterval → Str
adverb daily = codes "daily"
adverb weekly = codes "weekly"
adverb monthly = codes "monthly"
adverb yearly = codes "yearly"

abbrev pub noun : CheckInInterval → Str
noun daily = codes "day"
noun weekly = codes "week"
noun monthly = codes "month"
noun yearly = codes "year"

-- What the spelling of a text comes to: its letters lowercase, and no white space around it.
abbrev pub normal : Str → Str
normal s = lower (strip is_space s)

listed : (s : Str) (i : CheckInInterval) → Entry check_in_intervals s i → s ≡ adverb i
listed s i (inl (e, f)) = rw f e
listed s i (inr (inl (e, f))) = rw f e
listed s i (inr (inr (inl (e, f)))) = rw f e
listed s i (inr (inr (inr (inl (e, f))))) = rw f e
listed s i (inr (inr (inr (inr h)))) = absurd h

renamed :
    (s w : Str)
    → Entry legacy_check_in_intervals s w
    → (i : CheckInInterval) × (s ≡ noun i) × (w ≡ adverb i)
renamed s w (inl (e, f)) = (daily, e, f)
renamed s w (inr (inl (e, f))) = (weekly, e, f)
renamed s w (inr (inr (inl (e, f)))) = (monthly, e, f)
renamed s w (inr (inr (inr (inl (e, f))))) = (yearly, e, f)
renamed s w (inr (inr (inr (inr h)))) = absurd h

adverbial-adverb : (i : CheckInInterval) → adverbial (adverb i) ≡ adverb i
unfolding adverbial member_named str_eq
adverbial-adverb daily = refl
adverbial-adverb weekly = refl
adverbial-adverb monthly = refl
adverbial-adverb yearly = refl

adverbial-noun : (i : CheckInInterval) → adverbial (noun i) ≡ adverb i
unfolding adverbial member_named str_eq
adverbial-noun daily = refl
adverbial-noun weekly = refl
adverbial-noun monthly = refl
adverbial-noun yearly = refl

named : (i : CheckInInterval) → member_named check_in_intervals (adverb i) ≡ some i
unfolding member_named str_eq
named daily = refl
named weekly = refl
named monthly = refl
named yearly = refl

normal-adverb : (i : CheckInInterval) → normal (adverb i) ≡ adverb i
unfolding lower strip is_space
normal-adverb daily = refl
normal-adverb weekly = refl
normal-adverb monthly = refl
normal-adverb yearly = refl

adverb-injective : (i j : CheckInInterval) → adverb i ≡ adverb j → i ≡ j
adverb-injective i j h =
    let e = sym (named i) ∙ ap (member_named check_in_intervals) h ∙ named j in cc e

-- The texts of an interval: its adverb or its noun, in any case, in white space.
abbrev pub Spells : Str → CheckInInterval → Type 0
Spells s i = (normal s ≡ adverb i) ⊎ (normal s ≡ noun i)

adverbial-cases :
    (n : Str)
    → (adverbial n ≡ n) ⊎ ((i : CheckInInterval) × (n ≡ noun i) × (adverbial n ≡ adverb i))
unfolding adverbial
adverbial-cases n = elim (Option-cases (member_named legacy_check_in_intervals n)) [
  | inl e ↦ inl (rw e refl)
  | inr (w, e) ↦
      let (i, is_noun, is_adverb) =
        renamed n w (member_named-Entry legacy_check_in_intervals n w e) in
      inr (i, is_noun, rw e is_adverb)
]

missing_interval-Spells :
    (s : Str) (i : CheckInInterval) → missing_interval (str s) ≡ some i → Spells s i
unfolding missing_interval
missing_interval-Spells s i h =
    let found : adverbial (normal s) ≡ adverb i =
      listed _ i (member_named-Entry check_in_intervals (adverbial (normal s)) i h) in
    elim (adverbial-cases (normal s)) [
      | inl e ↦ inl (sym e ∙ found)
      | inr (j, is_noun, e) ↦
          let same : j ≡ i = adverb-injective j i (sym e ∙ found) in inr (is_noun ∙ ap noun same)
    ]

missing_interval-some :
    (s : Str) (i : CheckInInterval) → Spells s i → missing_interval (str s) ≡ some i
unfolding missing_interval
missing_interval-some s i (inl e) = rw (e, adverbial-adverb i) (named i)
missing_interval-some s i (inr e) = rw (e, adverbial-noun i) (named i)

spelled : (j i : CheckInInterval) (s : Str) → normal s ≡ adverb j → Spells s i → adverb j ≡ adverb i
spelled j i s h (inl e) = sym h ∙ e
spelled j i s h (inr e) = sym (adverbial-adverb j) ∙ ap adverbial (sym h ∙ e) ∙ adverbial-noun i

-- A text is taken for a check-in interval exactly when, without the white space around it and with
-- its letters in lower case, it is the adverb or the noun of that interval: no other text is taken
-- for one, and none for two.
pub check_in_interval_of_text_iff :
    (s : Str) (i : CheckInInterval) → (check_in_interval_of_text s ≡ some i) ↔ Spells s i
unfolding check_in_interval_of_text
check_in_interval_of_text_iff s i = elim (Option-cases (member_named check_in_intervals s)) [
  | inl e ↦ rw e (missing_interval-Spells s i, missing_interval-some s i)
  | inr (j, e) ↦
      let is_adverb : s ≡ adverb j = listed s j (member_named-Entry check_in_intervals s j e) in
      let is_normal : normal s ≡ adverb j = ap normal is_adverb ∙ normal-adverb j in
      rw e (
        (λ h. let same : j ≡ i = cc h in inl (is_normal ∙ ap adverb same)),
        (λ spells. ap some (adverb-injective j i (spelled j i s is_normal spells))),
      )
]
