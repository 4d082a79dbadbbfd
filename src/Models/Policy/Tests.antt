-- ===== src/Models/Policy/Tests.antt =====
-- Spellings of a check-in interval.
use tamga_python.Prelude.{◌≡◌, ◌↔◌, refl, some}
use tamga_python.Python.Str.{codes}
use tamga_python.Models.Policy.Strategies.{weekly, check_in_interval_of_text}
use tamga_python.Models.Policy.CheckIn.{Spells, check_in_interval_of_text_iff}

check_in_interval_of_text_iff_example :
    (check_in_interval_of_text (codes " Week ") ≡ some weekly) ↔ Spells (codes " Week ") weekly
check_in_interval_of_text_iff_example = check_in_interval_of_text_iff (codes " Week ") weekly

takes_noun : check_in_interval_of_text (codes " Week ") ≡ some weekly
unfolding check_in_interval_of_text
takes_noun = refl
