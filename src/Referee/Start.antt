-- ===== src/Referee/Start.antt =====
-- `Referee.__init__`: every check in the order of the source.
use k3df.Base.{ℕ, suc, String, Option, none, some, List, [], ◌∷◌, map, eqb, if◌then◌else◌, contains}
use k3df.Base.Int.{ℤ, pos}
use k3df.Text.{int_of_text}
use k3df.Referee.Files.{
  Init, ready, ◌>>=◌, read_flag, validate_state_directory, valid_seed, initialization_error,
  invalid, duplicate_values, number, Artifact,
}
use k3df.Referee.State.{Referee, Environment, flag_ids, load}

abbrev pub or_default : String → Option String → String
or_default d none = d
or_default d (some v) = v

-- `for number in range(1, 4)`
abbrev pub flag_names : List String
flag_names = "flag-1" ∷ "flag-2" ∷ "flag-3" ∷ []

unfoldable pub read_flags : (String → Artifact) → List String → Init (List (String × String))
read_flags files [] = ready []
read_flags files (id ∷ ids) =
    read_flag id (files id) >>= λ value. read_flags files ids >>= λ rest. ready ((id, value) ∷ rest)

-- `len(set(values))`
unfoldable pub distinct_count : List String → ℕ
distinct_count [] = 0
distinct_count (x ∷ xs) = let n = distinct_count xs in if contains xs x then n else suc n

unfoldable pub check_seed : String → Init String
check_seed seed =
    if valid_seed seed
    then ready seed
    else initialization_error "configuration" "K3DF_CTF_DEMO_SEED" "format"
        "1-128-printable-ascii-characters" invalid

abbrev pub flag_values : List (String × String) → List String
flag_values flags = map (λ (_, value). value) flags

unfoldable pub check_distinct : List (String × String) → Init (Unit {0})
check_distinct flags =
    if eqb (distinct_count (flag_values flags)) 3
    then ready tt
    else initialization_error "flag-artifact" "flag-set" "uniqueness" "three-distinct-values"
        duplicate_values

-- `int(...)` and the test on the range.
unfoldable pub check_max : Option ℤ → Init ℕ
check_max none =
    initialization_error "configuration" "K3DF_REFEREE_MAX_SUBMISSIONS" "integer" "positive-integer"
      invalid
check_max (some (pos (suc n))) = ready (suc n)
check_max (some n) =
    initialization_error "configuration" "K3DF_REFEREE_MAX_SUBMISSIONS" "range" "positive-integer"
      (number n)

unfoldable pub start : Environment → Init Referee
unfolding check_seed check_distinct check_max
start env = do
  seed ← check_seed (or_default "ValidationSeed" env.demo_seed)
  flags ← read_flags env.flag_file flag_names
  _ ← check_distinct flags
  _ ← validate_state_directory env.state_directory
  max ← check_max (int_of_text (or_default "30" env.max_setting))
  loaded ← load (flag_ids flags) env.state_file
  ready (record {
    seed = seed;
    flags = flags;
    max_submissions = max;
    accepted = loaded.0;
    submission_attempts = loaded.1;
    disk = env.state_file;
  })
