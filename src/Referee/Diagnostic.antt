-- ===== src/Referee/Diagnostic.antt =====
-- `file_type`, `initialization_error` and `metadata_summary` as texts, and `main`. A text is the
-- list of its code points.
use k3df.Base.{
  ℕ, zero, suc, ◌+◌, ◌-◌, ◌/◌, ◌%◌, List, [], ◌∷◌, ◌++◌, codes, length, ltb, if◌then◌else◌, Error,
}
use k3df.Base.Int.{ℤ, pos, negsuc}
use k3df.Referee.Files.{
  FileType, regular_file, directory, symlink, other, Actual, missing_or_unreadable, invalid,
  unreadable, duplicate_values, invalid_or_unreadable, kind, number, size, summary, Diagnostic,
  Init, ready, failed, uncaught,
}
use k3df.Referee.State.{Referee, Environment}
use k3df.Referee.Start.{start}

unfoldable pub file_type_text : FileType → List ℕ
file_type_text regular_file = codes "regular-file"
file_type_text directory = codes "directory"
file_type_text symlink = codes "symlink"
file_type_text other = codes "other"

-- The digits of a number, highest first, before those of `acc`. A division makes the number less,
-- so that one more than the number is fuel enough.
unfoldable pub digits : ℕ → ℕ → ℕ → List ℕ → List ℕ
digits base zero n acc = acc
digits base (suc fuel) n acc =
    let more = digits base fuel (n / base) ((b'0' + n % base) ∷ acc) in
    if ltb n base then (b'0' + n) ∷ acc else more

-- `str(n)`
unfoldable pub decimal_text : ℕ → List ℕ
unfolding digits
decimal_text n = digits 10 (suc n) n []

unfoldable pub integer_text : ℤ → List ℕ
integer_text (pos n) = decimal_text n
integer_text (negsuc n) = b'-' ∷ decimal_text (suc n)

abbrev pub padding : ℕ → List ℕ
padding zero = []
padding (suc n) = b'0' ∷ padding n

-- `{mode:04o}`
unfoldable pub octal_text : ℕ → List ℕ
unfolding digits
octal_text mode = let text = digits 8 (suc mode) mode [] in padding (4 - length text) ++ text

unfoldable pub actual_text : Actual → List ℕ
unfolding file_type_text decimal_text integer_text octal_text
actual_text missing_or_unreadable = codes "missing-or-unreadable"
actual_text invalid = codes "invalid"
actual_text unreadable = codes "unreadable"
actual_text duplicate_values = codes "duplicate-values"
actual_text invalid_or_unreadable = codes "invalid-or-unreadable"
actual_text (kind t) = file_type_text t
actual_text (number z) = integer_text z
actual_text (size n) = decimal_text n
actual_text (summary t uid gid mode) =
    codes "type="
    ++ file_type_text t
    ++ codes ",uid="
    ++ decimal_text uid
    ++ codes ",gid="
    ++ decimal_text gid
    ++ codes ",mode="
    ++ octal_text mode

-- The message of an `InitializationError`.
unfoldable pub diagnostic_text : Diagnostic → List ℕ
unfolding actual_text
diagnostic_text d =
    codes "Referee initialization failed: category="
    ++ codes d.category
    ++ codes "; target="
    ++ codes d.target
    ++ codes "; check="
    ++ codes d.check
    ++ codes "; expected="
    ++ codes d.expected
    ++ codes "; actual="
    ++ actual_text d.actual
    ++ codes "."

-- How `main` goes on: the process ends with a code and a text printed, or it serves, or another
-- exception ends it.
pub data Started : Type 0 where
  exits : (code : ℕ) (printed : List ℕ) → Started
  serves : Referee → Started
  escapes : Error → Started

abbrev pub after_start : Init Referee → Started
after_start (ready r) = serves r
after_start (failed d) = exits 1 (diagnostic_text d)
after_start (uncaught e) = escapes e

unfoldable pub main : Environment → Started
unfolding start diagnostic_text
main env = after_start (start env)
