-- ===== src/Tests/Watching.antt =====
-- Readings of a server's process.
use pywings.Prelude.{ℕ, ◌≡◌, ◌↔◌, false, none, List, [], ◌∷◌, any}
use pywings.Processes.Limits.{Limits, Reading, exceeded}
use pywings.Processes.Enforced.{is_large, is_loaded, three_in_a_row, exceeded-none_iff}

abbrev limits : Limits
limits = record { bytes = 1000; disk_bytes = 0; share = 50 }

abbrev reading : ℕ → Reading
reading load = record { rss = 900; used = 5; load = load }

abbrev readings : List Reading
readings = reading 60 ∷ reading 70 ∷ reading 40 ∷ reading 80 ∷ []

exceeded-none_iff_example : (exceeded limits 0 readings ≡ none) ↔ (
    (any (is_large limits) readings ≡ false) × (three_in_a_row (is_loaded limits) readings ≡ false))
exceeded-none_iff_example = exceeded-none_iff limits readings
