-- ===== src/Examples/Quotas.antt =====
-- The pause gate of end_of_line/quota.py after a sample death.
use end_of_line.Shared.{ℕ, ◌+◌, Option, none, string_eq}
use end_of_line.Quota.{QuotaMatch, Pause, pause_buffer}
use end_of_line.Quota.Gate.{paused_by}
use end_of_line.Examples.{noon}

abbrev limit : QuotaMatch
limit = record { signature = "limit"; line = "usage limit reached" }

-- The death at noon named a reset ten minutes later; the canary asks at the buffered reset, and another
-- plan a minute behind it.
abbrev reset : ℕ
reset = noon + 600000000

abbrev asks : ℕ
asks = reset + pause_buffer

abbrev pause : Option Pause
pause = paused_by limit reset noon none
