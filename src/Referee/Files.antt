-- ===== src/Referee/Files.antt =====
-- The start-up checks of referee/service.py: seed, flag files and state directory.
use k3df.Base.{
  ℕ, suc, zero, ◌+◌, ◌/◌, ◌%◌, Bool, false, not, ◌&&◌, ◌||◌, String, Option, none, some,
}
use k3df.Base.{List, [], ◌∷◌, codes, length, all, ltb, leb, eqb, if◌then◌else◌, Error}
use k3df.Base.Int.{ℤ}
use k3df.Text.{strip}

-- The fields of `os.stat_result` that the checks read.
pub record Metadata : Type 0 where
  pub st_mode : ℕ
  pub st_uid : ℕ
  pub st_gid : ℕ
  pub st_size : ℕ

-- A mounted path: `lstat()`, and `read_text(encoding="ascii")`; `none` where the call raises
-- `OSError` or `UnicodeError`.
pub record Artifact : Type 0 where
  pub lstat : Option Metadata
  pub read_text : Option String

pub data FileType : Type 0 where
  regular_file directory symlink other : FileType

-- The type bits of a mode stand above its twelve permission bits: `stat.S_IFMT(mode) >> 12`.
abbrev pub type_bits : ℕ → ℕ
type_bits mode = mode / 4096 % 16

abbrev pub permission_bits : ℕ → ℕ
permission_bits mode = mode % 4096

-- How many of the three write bits are set: it is 0 exactly if `mode & 0o222` is.
abbrev pub write_bits : ℕ → ℕ
write_bits mode = mode / 2 % 2 + mode / 16 % 2 + mode / 128 % 2

unfoldable pub file_type : ℕ → FileType
file_type mode =
    if eqb (type_bits mode) 8
    then regular_file
    else if eqb (type_bits mode) 4
    then directory
    else if eqb (type_bits mode) 10
    then symlink
    else other

-- What a diagnostic says was found. It has no place for a path or a file's text.
pub data Actual : Type 0 where
  missing_or_unreadable invalid unreadable duplicate_values invalid_or_unreadable : Actual
  kind : FileType → Actual
  number : ℤ → Actual
  size : ℕ → Actual
  summary : FileType → ℕ → ℕ → ℕ → Actual

pub record Diagnostic : Type 0 where
  pub category : String
  pub target : String
  pub check : String
  pub expected : String
  pub actual : Actual

-- A start-up step: its value, an `InitializationError`, or another exception.
pub data Init (A : Type 0) : Type 0 where
  ready : A → Init A
  failed : Diagnostic → Init A
  uncaught : Error → Init A

infixl 5 ◌>>=◌
abbrev pub ◌>>=◌ : {A B : Type 0} → Init A → (A → Init B) → Init B
ready a >>= f = f a
failed d >>= f = failed d
uncaught e >>= f = uncaught e

abbrev pub initialization_error : {A : Type 0} → String → String → String → String → Actual → Init A
initialization_error category target check expected actual = failed (record {
  category = category;
  target = target;
  check = check;
  expected = expected;
  actual = actual;
})

unfoldable pub metadata_summary : Metadata → Actual
metadata_summary m = summary (file_type m.st_mode) m.st_uid m.st_gid (permission_bits m.st_mode)

-- `[A-Za-z0-9_-]`
abbrev pub is_safe : ℕ → Bool
is_safe c =
    (leb b'A' c && leb c b'Z')
    || (leb b'a' c && leb c b'z')
    || (leb b'0' c && leb c b'9')
    || eqb c b'_'
    || eqb c b'-'

-- `[A-Za-z0-9_-]{n}\}` up to the end.
unfoldable pub matches_tail : ℕ → List ℕ → Bool
matches_tail zero (c ∷ []) = eqb c b'}'
matches_tail (suc n) (c ∷ cs) = is_safe c && matches_tail n cs
matches_tail _ _ = false

abbrev pub matches_prefix : List ℕ → List ℕ → Bool
matches_prefix [] cs = matches_tail 43 cs
matches_prefix (p ∷ ps) [] = false
matches_prefix (p ∷ ps) (c ∷ cs) = eqb c p && matches_prefix ps cs

-- `FLAG_RE.fullmatch(value)`
unfoldable pub matches_flag : String → Bool
matches_flag value = matches_prefix (codes "K3DF{") (codes value)

-- The guard on owner, group and mode, as the source writes it.
unfoldable pub wrong_flag_owner : Metadata → Bool
wrong_flag_owner m =
    not (eqb m.st_uid 0)
    || not (eqb m.st_gid 20001)
    || not (eqb (permission_bits m.st_mode) 0o440)
    || ltb 0 (write_bits m.st_mode)

unfoldable pub read_content : String → Option String → Init String
read_content flag_id none =
    initialization_error "flag-artifact" flag_id "content-read" "ascii-readable-flag" unreadable
read_content flag_id (some text) =
    if matches_flag (strip text)
    then ready (strip text)
    else initialization_error "flag-artifact" flag_id "format" "K3DF{43-safe-characters}" invalid

unfoldable pub check_flag_metadata : String → Metadata → Option String → Init String
check_flag_metadata flag_id m content =
    if not (eqb (type_bits m.st_mode) 8)
    then initialization_error "flag-artifact" flag_id "file-type" "regular-file"
        (kind (file_type m.st_mode))
    else if leb m.st_size 0 || ltb 512 m.st_size
    then initialization_error "flag-artifact" flag_id "size" "1-512-bytes" (size m.st_size)
    else if wrong_flag_owner m
    then initialization_error "flag-artifact" flag_id "ownership-and-mode"
        "uid=0,gid=20001,mode=0440" (metadata_summary m)
    else read_content flag_id content

unfoldable pub read_flag : String → Artifact → Init String
unfolding read_content check_flag_metadata
read_flag flag_id path = elim path.lstat [
  | none ↦
      initialization_error "flag-artifact" flag_id "placement" "regular-file" missing_or_unreadable
  | some m ↦ check_flag_metadata flag_id m path.read_text
]

unfoldable pub wrong_state_owner : Metadata → Bool
wrong_state_owner m =
    not (eqb m.st_uid 10001)
    || not (eqb m.st_gid 10001)
    || not (eqb (permission_bits m.st_mode) 0o700)

-- The argument is the directory's `lstat()`.
unfoldable pub validate_state_directory : Option Metadata → Init (Unit {0})
validate_state_directory none =
    initialization_error "referee-state" "state-directory" "placement" "directory"
      missing_or_unreadable
validate_state_directory (some m) =
    if not (eqb (type_bits m.st_mode) 4)
    then initialization_error "referee-state" "state-directory" "file-type" "directory"
        (kind (file_type m.st_mode))
    else if wrong_state_owner m
    then initialization_error "referee-state" "state-directory" "ownership-and-mode"
        "uid=10001,gid=10001,mode=0700" (metadata_summary m)
    else ready tt

-- `valid_seed`
unfoldable pub valid_seed : String → Bool
valid_seed value =
    leb 1 (length (codes value))
    && leb (length (codes value)) 128
    && all (λ c. leb 32 c && leb c 126) (codes value)
