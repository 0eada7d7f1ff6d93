-- ===== src/Display/Tests.antt =====
-- Durations as the pages show them, on small inputs, and the theorems at them.
use wazire.Base.{◌≡◌, refl, [], ◌∷◌}
use wazire.Base.Text.{text}
use wazire.Base.Decimal.{read_digits, print, pad_start2}
use wazire.Display.FormatTime.{format_time, read_time, format_time_reads_back}
use wazire.Display.Offset.{behind, offset_text}
use wazire.Display.Duration.{Decimal, format_duration, label}

-- An hour, a minute and a second.
format_time_hour : format_time 3661 ≡ text "1:01:01"
unfolding format_time text print pad_start2
format_time_hour = refl

format_time_reads_back_example : read_time 0 0 (format_time 3661) ≡ 3661
format_time_reads_back_example = format_time_reads_back 3661

-- Two and a half hours.
abbrev half : Decimal
half = record { whole = 2; fraction = b'5' ∷ [] }

half_shown : format_duration half ≡ text "2 hrs 5 min"
unfolding format_duration text print label read_digits
half_shown = refl

-- Newfoundland, three and a half hours behind UTC.
newfoundland : offset_text (behind 210) ≡ text "-04:30"
unfolding offset_text text print pad_start2
newfoundland = refl
