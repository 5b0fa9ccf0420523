-- ===== src/Tests/Updates.antt =====
-- Versions and updates.
use pywings.Prelude.{◌≡◌, refl, true, false, some, lit, split, strip, lstrip}
use pywings.Numbers.{int_text}
use pywings.Updater.{check_update, parse_version, part, base_of, less, is_greater}
use pywings.Updater.Versions.{one, more, check_update_acyclic}

offered : (check_update (some (lit "v1.0.10")) (lit "1.0.9-pywings")).0 ≡ true
unfolding check_update parse_version part base_of less is_greater split strip lstrip int_text
offered = refl

later : (check_update (some (lit "1.1")) (lit "v1.0.10")).0 ≡ true
unfolding check_update parse_version part base_of less is_greater split strip lstrip int_text
later = refl

check_update_acyclic_example : (check_update (some (lit "1.0.9-pywings")) (lit "1.1")).0 ≡ false
check_update_acyclic_example =
    check_update_acyclic (lit "1.0.9-pywings") (lit "1.1")
      (more (lit "v1.0.10") (lit "1.1") (one (lit "v1.0.10") offered) later)
