-- ===== src/Provision.antt =====
-- ctf/provision.py: the files of a new exercise. A file's text is its code points; random bytes are
-- arguments. The directory is a list of the files written, in order.
pub mod Secret
pub mod Partial
use k3df.Base.{
  ℕ, zero, suc, ◌+◌, ◌-◌, ◌*◌, ◌/◌, ◌%◌, Bool, true, false, not, ◌&&◌, ◌||◌, String, Option, none,
  some, List, [], ◌∷◌, ◌++◌, map, codes, length, ltb, leb, eqb, if◌then◌else◌, Error, value_error,
  os_error,
}
use k3df.Text.{strip, is_ascii}

-- The alphabet of URL-safe base64.
abbrev pub digit : ℕ → ℕ
digit n =
    if ltb n 26
    then b'A' + n
    else if ltb n 52
    then b'a' + (n - 26)
    else if ltb n 62
    then b'0' + (n - 52)
    else if eqb n 62
    then b'-'
    else b'_'

-- `base64.urlsafe_b64encode`
unfoldable pub encode : List ℕ → List ℕ
encode [] = []
encode (a ∷ []) = digit (a / 4) ∷ digit (a % 4 * 16) ∷ b'=' ∷ b'=' ∷ []
encode (a ∷ b ∷ []) = digit (a / 4) ∷ digit (a % 4 * 16 + b / 16) ∷ digit (b % 16 * 4) ∷ b'=' ∷ []
encode (a ∷ b ∷ c ∷ rest) =
    digit (a / 4)
    ∷ digit (a % 4 * 16 + b / 16)
    ∷ digit (b % 16 * 4 + c / 64)
    ∷ digit (c % 64)
    ∷ encode rest

abbrev pub is_empty : List ℕ → Bool
is_empty [] = true
is_empty (_ ∷ _) = false

-- `rstrip("=")`
unfoldable pub strip_padding : List ℕ → List ℕ
strip_padding [] = []
strip_padding (c ∷ cs) =
    let rest = strip_padding cs in if eqb c b'=' && is_empty rest then [] else c ∷ rest

-- `secrets.token_urlsafe` of the bytes.
abbrev pub token_urlsafe : List ℕ → List ℕ
token_urlsafe bytes = strip_padding (encode bytes)

-- `_secret`
abbrev pub secret : List ℕ → List ℕ
secret bytes = codes "K3DF{" ++ (token_urlsafe bytes ++ (b'}' ∷ []))

-- `lower()`, of ASCII letters. No other character has one of the letters of `placeholder` or `todo`
-- in its lower case, so that the comparisons with them come out the same.
abbrev pub lower : ℕ → ℕ
lower c = if leb b'A' c && leb c b'Z' then c + 32 else c

abbrev pub same_codes : List ℕ → List ℕ → Bool
same_codes [] [] = true
same_codes (x ∷ xs) (y ∷ ys) = eqb x y && same_codes xs ys
same_codes _ _ = false

unfoldable pub is_placeholder : String → Bool
is_placeholder hint =
    let text = map lower (codes (strip hint)) in
    is_empty text || same_codes text (codes "placeholder") || same_codes text (codes "todo")

pub record File : Type 0 where
  pub path : String
  pub text : List ℕ

-- The bytes that the generator gives in one run.
pub record Random : Type 0 where
  pub flag_1 : List ℕ
  pub flag_2 : List ℕ
  pub flag_3 : List ℕ
  pub run_id : List ℕ
  pub run_auth : List ℕ

-- `_write_new` of a value.
abbrev pub write_new : String → List ℕ → File
write_new path value = record { path = path; text = value ++ (10 ∷ []) }

abbrev pub flag_files : Random → List File
flag_files r =
    write_new "flag-1/flag-1.value" (secret r.flag_1)
    ∷ write_new "flag-2/flag-2.value" (secret r.flag_2)
    ∷ write_new "flag-3/flag-3.value" (secret r.flag_3)
    ∷ []

abbrev pub hint_path : String
hint_path = "flag-1/flag-1-hint.txt"

-- A hint that is not ASCII raises when it is written, and leaves its file empty.
unfoldable pub write_files : Random → String → List File × Option Error
write_files r hint =
    if is_ascii hint
    then (
      flag_files r
          ++ (write_new hint_path (codes hint)
              ∷ write_new "run/run-id" (codes "run-" ++ token_urlsafe r.run_id)
              ∷ write_new "run/run-auth.token" (token_urlsafe r.run_auth)
              ∷ []),
      none,
    )
    else (flag_files r ++ (record { path = hint_path; text = [] } ∷ []), some value_error)

-- `provision` in a directory that holds the given files.
unfoldable pub provision : Random → String → List File → List File × Option Error
provision r hint [] = if is_placeholder hint then ([], some value_error) else write_files r hint
provision r hint (f ∷ fs) =
    if is_placeholder hint then (f ∷ fs, some value_error) else (f ∷ fs, some os_error)
