-- ===== src/Dispatch/Accounted.antt =====
-- A claim of a tick has a worker behind it, or is given back.
use end_of_line.Shared.{
  String, some, true, false, ◌≡◌, ◌⊎◌, ok, err, Result, Error, value_error, string_eq,
}
use end_of_line.State.{option_text_eq}
use end_of_line.Dispatch.{Attempt, Dispatched, raised}
use end_of_line.Dispatch.Writes.{IsFree, IsManned}

-- The dispatcher says that nothing was spawned, and the claim is released.
abbrev pub IsGivenBack : String → Dispatched → Type 0
IsGivenBack slug d = (d.is_spawned ≡ false) × IsFree slug d.db

abbrev pub IsAccounted : String → Dispatched → Type 0
IsAccounted slug d = IsGivenBack slug d ⊎ ((d.is_spawned ≡ true) × IsManned slug d.db)

-- The dispatch raised: an unknown kind of dispatch, or an error of the preparation or of the spawn that
-- is not caught.
abbrev pub IsRaised : Attempt → Error → Type 0
IsRaised a e =
    (e ≡ value_error) × (a.is_shell ≡ false) ⊎ (a.setup_error ≡ some e) ⊎ (a.spawn ≡ raised e)

-- Of a dispatch that returns and of one that raises.
abbrev pub IsAnswered : String → Attempt → Result Dispatched → Type 0
IsAnswered slug a (ok d) = IsAccounted slug d
IsAnswered slug a (err e) = IsRaised a e
