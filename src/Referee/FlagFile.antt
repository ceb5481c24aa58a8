-- ===== src/Referee/FlagFile.antt =====
-- Which mounted files the start-up accepts.
use k3df.Base.{
  ℕ, zero, suc, ◌+◌, ◌≤◌, ◌≡◌, ◌≢◌, ◌↔◌, ◌∙◌, ap, refl, true, String, Option, none, some, List, [],
  ◌∷◌, arith, codes, length, all, ltb,
}
use k3df.Text.{strip, is_ascii}
use k3df.Referee.Files.{
  Metadata, Artifact, type_bits, permission_bits, ready, read_flag, matches_flag, matches_prefix,
  matches_tail, is_safe, wrong_flag_owner, check_flag_metadata, read_content,
}

-- A regular file of 1 to 512 bytes, of user 0 and group 20001, with mode 0440.
pub record IsFlagFile (m : Metadata) : Type 0 where
  pub regular : type_bits m.st_mode ≡ 8
  pub nonempty : 1 ≤ m.st_size
  pub small : m.st_size ≤ 512
  pub owner : m.st_uid ≡ 0
  pub group : m.st_gid ≡ 20001
  pub mode : permission_bits m.st_mode ≡ 0o440

abbrev pub AcceptedFlag : Artifact → String → Type 0
AcceptedFlag path value =
    (m : Metadata) × (text : String) × (path.lstat ≡ some m)
    × (path.read_text ≡ some text)
    × IsFlagFile m
    × (strip text ≡ value)
    × (matches_flag value ≡ true)

check_accepts :
    (id : String) (m : Metadata) (text : String)
    → IsFlagFile m
    → matches_flag (strip text) ≡ true
    → check_flag_metadata id m (some text) ≡ ready (strip text)
unfolding check_flag_metadata wrong_flag_owner read_content
check_accepts id m text f h = ground arith

check_accepted :
    (id : String) (m : Metadata) (text value : String)
    → check_flag_metadata id m (some text) ≡ ready value
    → IsFlagFile m × (strip text ≡ value) × (matches_flag value ≡ true)
unfolding check_flag_metadata wrong_flag_owner read_content
check_accepted id m text value h = (ground arith, ground arith, ground arith)

check_unread :
    (id : String) (m : Metadata) (value : String) → check_flag_metadata id m none ≢ ready value
unfolding check_flag_metadata read_content
check_unread id m value = λ h. ground arith

read_flag-accepts :
    (id : String) (path : Artifact) (value : String)
    → AcceptedFlag path value
    → read_flag id path ≡ ready value
unfolding read_flag
read_flag-accepts id path value (m, text, l, r, f, e, h) =
    rw (l, r) (check_accepts id m text f (rw e h) ∙ ap ready e)

read_flag-accepted :
    (id : String) (path : Artifact) (value : String) (l : Option Metadata) (t : Option String)
    → path.lstat ≡ l
    → path.read_text ≡ t
    → read_flag id path ≡ ready value
    → AcceptedFlag path value
unfolding read_flag
read_flag-accepted id path value none t l r h = absurd (ground arith)
read_flag-accepted id path value (some m) none l r h =
    absurd (check_unread id m value (rw (l, r) at h))
read_flag-accepted id path value (some m) (some text) l r h =
    let (f, e, g) = check_accepted id m text value (rw (l, r) at h) in (m, text, l, r, f, e, g)

-- A flag file is read with a value exactly if its lstat succeeds and shows a regular file of 1 to
-- 512 bytes of user 0 and group 20001 with mode 0440, its text is readable, the stripped text is
-- the value, and the value matches the flag pattern.
pub read_flag_iff :
    (id : String) (path : Artifact) (value : String)
    → (read_flag id path ≡ ready value) ↔ AcceptedFlag path value
read_flag_iff id path value = (
  read_flag-accepted id path value path.lstat path.read_text refl refl,
  read_flag-accepts id path value,
)

is_safe-ascii : (c : ℕ) → is_safe c ≡ true → ltb c 128 ≡ true
is_safe-ascii c h = ground arith

-- What the pattern matches is ASCII, and has 49 characters.
matches_tail-ascii :
    (n : ℕ) (cs : List ℕ) → matches_tail n cs ≡ true → all (λ c. ltb c 128) cs ≡ true
unfolding matches_tail
matches_tail-ascii zero [] h = cc
matches_tail-ascii zero (c ∷ []) h = ground arith
matches_tail-ascii zero (c ∷ d ∷ cs) h = cc
matches_tail-ascii (suc n) [] h = cc
matches_tail-ascii (suc n) (c ∷ cs) h = ground (arith, is_safe-ascii c, matches_tail-ascii n cs)

matches_tail-length : (n : ℕ) (cs : List ℕ) → matches_tail n cs ≡ true → length cs ≡ n + 1
unfolding matches_tail
matches_tail-length zero [] h = cc
matches_tail-length zero (c ∷ []) h = omega arith
matches_tail-length zero (c ∷ d ∷ cs) h = cc
matches_tail-length (suc n) [] h = cc
matches_tail-length (suc n) (c ∷ cs) h = ground (arith, matches_tail-length n cs)

matches_prefix-ascii :
    (ps cs : List ℕ)
    → all (λ c. ltb c 128) ps ≡ true
    → matches_prefix ps cs ≡ true
    → all (λ c. ltb c 128) cs ≡ true
matches_prefix-ascii [] cs a h = matches_tail-ascii 43 cs h
matches_prefix-ascii (p ∷ ps) [] a h = cc
matches_prefix-ascii (p ∷ ps) (c ∷ cs) a h = ground (arith, matches_prefix-ascii ps cs)

pub matches_flag-ascii : (value : String) → matches_flag value ≡ true → is_ascii value ≡ true
unfolding matches_flag is_ascii
matches_flag-ascii value h = matches_prefix-ascii (codes "K3DF{") (codes value) refl h

matches_prefix-length : (ps cs : List ℕ) → matches_prefix ps cs ≡ true → length cs ≡ length ps + 44
matches_prefix-length [] cs h = omega (arith, matches_tail-length 43 cs h)
matches_prefix-length (p ∷ ps) [] h = cc
matches_prefix-length (p ∷ ps) (c ∷ cs) h = ground (arith, matches_prefix-length ps cs)

pub matches_flag-length : (value : String) → matches_flag value ≡ true → length (codes value) ≡ 49
unfolding matches_flag
matches_flag-length value h = matches_prefix-length (codes "K3DF{") (codes value) h
