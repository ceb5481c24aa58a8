-- ===== src/Referee/Reserved.antt =====
-- The diagnostics with which the start of referee/service.py fails: every one has plain texts, or
-- says which form a flag has.
use k3df.Base.{
  ℕ, zero, suc, codes, String, refl, all, ◌≡◌, ◌⊎◌, inl, inr, true, false, List, [], ◌∷◌, Bool, All,
  if◌then◌else◌, Option, none, some, not, leb, ltb, ◌||◌, eqb, ok, raised,
}
use k3df.Base.Int.{ℤ, pos, negsuc}
use k3df.Json.{Value, int, bool, arr, obj, bool_int, elements}
use k3df.Text.{strip, int_of_text}
use k3df.Referee.Files.{
  wrong_flag_owner, type_bits, missing_or_unreadable, initialization_error, Diagnostic, Init, ready,
  failed, uncaught, ◌>>=◌, matches_flag, read_flag, check_flag_metadata, read_content,
  validate_state_directory, Artifact, Metadata, valid_seed, wrong_state_owner,
}
use k3df.Referee.State.{
  Environment, load, load_fields, StateFile, missing, corrupt, document, attempts_of, natural,
  all_known, set_of, flag_ids, bad_state,
}
use k3df.Referee.Start.{
  start, read_flags, check_seed, check_distinct, check_max, flag_names, distinct_count, flag_values,
  or_default,
}
use k3df.Referee.PlainText.{plain_code}

abbrev pub flag_form : String
flag_form = "K3DF{43-safe-characters}"

pub record IsReserved (d : Diagnostic) : Type 0 where
  pub category : all plain_code (codes d.category) ≡ true
  pub target : all plain_code (codes d.target) ≡ true
  pub check : all plain_code (codes d.check) ≡ true
  pub expected : (all plain_code (codes d.expected) ≡ true) ⊎ (d.expected ≡ flag_form)

-- A step of the start fails with such a diagnostic only.
abbrev pub Reserved : {A : Type 0} → Init A → Type 0
Reserved (ready a) = Unit
Reserved (failed d) = IsReserved d
Reserved (uncaught e) = Unit

Reserved-bind :
    {A B : Type 0} (m : Init A) (f : A → Init B)
    → Reserved m
    → ((a : A) → Reserved (f a))
    → Reserved (m >>= f)
Reserved-bind (ready a) f r h = h a
Reserved-bind (failed d) f r h = r
Reserved-bind (uncaught e) f r h = tt

Reserved-if :
    {A : Type 0} (b : Bool) (m n : Init A) → Reserved m → Reserved n → Reserved (if b then m else n)
Reserved-if true m n r s = r
Reserved-if false m n r s = s

fixed :
    {d : Diagnostic}
    → all plain_code (codes d.category) ≡ true
    → all plain_code (codes d.target) ≡ true
    → all plain_code (codes d.check) ≡ true
    → all plain_code (codes d.expected) ≡ true
    → IsReserved d
fixed c t k e = record { category = c; target = t; check = k; expected = inl e }

read_content-Reserved :
    (id : String) (o : Option String)
    → all plain_code (codes id) ≡ true
    → Reserved (read_content id o)
unfolding read_content
read_content-Reserved id none p = fixed refl p refl refl
read_content-Reserved id (some text) p =
    Reserved-if (matches_flag (strip text)) _ _ tt
      (record { category = refl; target = p; check = refl; expected = inr refl })

read_flag-Reserved :
    (id : String) (path : Artifact)
    → all plain_code (codes id) ≡ true
    → Reserved (read_flag id path)
unfolding read_flag check_flag_metadata
read_flag-Reserved id path p =
    elim path.lstat
      as (λ o. Reserved (elim o [
        | none ↦
            initialization_error "flag-artifact" id "placement" "regular-file" missing_or_unreadable
        | some m ↦ check_flag_metadata id m path.read_text
      ])) [
        | none ↦ fixed refl p refl refl
        | some m ↦ Reserved-if (not (eqb (type_bits m.st_mode) 8)) _ _ (fixed refl p refl refl) (
            Reserved-if (leb m.st_size 0 || ltb 512 m.st_size) _ _ (fixed refl p refl refl) (
              Reserved-if (wrong_flag_owner m) _ _ (fixed refl p refl refl)
                (read_content-Reserved id path.read_text p)))
      ]

read_flags-Reserved :
    (files : String → Artifact) (ids : List String)
    → All (λ id. all plain_code (codes id) ≡ true) ids
    → Reserved (read_flags files ids)
unfolding read_flags
read_flags-Reserved files [] p = tt
read_flags-Reserved files (id ∷ ids) p =
    Reserved-bind (read_flag id (files id)) _ (read_flag-Reserved id (files id) p.0) (λ value.
      Reserved-bind (read_flags files ids) _ (read_flags-Reserved files ids p.1) (λ rest. tt))

check_seed-Reserved : (seed : String) → Reserved (check_seed seed)
unfolding check_seed
check_seed-Reserved seed = Reserved-if (valid_seed seed) _ _ tt (fixed refl refl refl refl)

check_distinct-Reserved : (flags : List (String × String)) → Reserved (check_distinct flags)
unfolding check_distinct
check_distinct-Reserved flags =
    Reserved-if (eqb (distinct_count (flag_values flags)) 3) _ _ tt (fixed refl refl refl refl)

validate_state_directory-Reserved : (o : Option Metadata) → Reserved (validate_state_directory o)
unfolding validate_state_directory
validate_state_directory-Reserved none = fixed refl refl refl refl
validate_state_directory-Reserved (some m) =
    Reserved-if (not (eqb (type_bits m.st_mode) 4)) _ _ (fixed refl refl refl refl)
      (Reserved-if (wrong_state_owner m) _ _ (fixed refl refl refl refl) tt)

check_max-Reserved : (o : Option ℤ) → Reserved (check_max o)
unfolding check_max
check_max-Reserved none = fixed refl refl refl refl
check_max-Reserved (some (pos zero)) = fixed refl refl refl refl
check_max-Reserved (some (pos (suc n))) = tt
check_max-Reserved (some (negsuc n)) = fixed refl refl refl refl

natural-Reserved : (z : ℤ) → Reserved (natural z)
natural-Reserved (pos n) = tt
natural-Reserved (negsuc n) = fixed refl refl refl refl

attempts_of-Reserved : (v : Value) → Reserved (attempts_of v)
unfolding attempts_of
attempts_of-Reserved (int n) = natural-Reserved n
attempts_of-Reserved (bool b) = natural-Reserved (bool_int b)
attempts_of-Reserved _ = fixed refl refl refl refl

load_fields-Reserved :
    (ids : List String) (v attempts : Value) → Reserved (load_fields ids v attempts)
unfolding load_fields
load_fields-Reserved ids (arr vs) attempts =
    elim (all_known ids (elements vs))
      as (λ k. Reserved {A = List String × ℕ} (elim k [
        | ok true ↦ attempts_of attempts >>= λ n. ready (set_of (elements vs), n)
        | ok false ↦ bad_state
        | raised e ↦ uncaught e
      ])) [
        | ok true ↦ Reserved-bind (attempts_of attempts) _ (attempts_of-Reserved attempts) (λ n. tt)
        | ok false ↦ fixed refl refl refl refl
        | raised e ↦ tt
      ]
load_fields-Reserved ids _ attempts = fixed refl refl refl refl

load-Reserved : (ids : List String) (f : StateFile) → Reserved (load ids f)
unfolding load
load-Reserved ids missing = tt
load-Reserved ids corrupt = fixed refl refl refl refl
load-Reserved ids (document (obj d)) = load_fields-Reserved ids _ _
load-Reserved ids (document _) = fixed refl refl refl refl

pub start-Reserved : (env : Environment) → Reserved (start env)
unfolding start
start-Reserved env =
    let seed = or_default "ValidationSeed" env.demo_seed in
    let max = int_of_text (or_default "30" env.max_setting) in
    Reserved-bind (check_seed seed) _ (check_seed-Reserved seed) (λ seed'.
      Reserved-bind (read_flags env.flag_file flag_names) _
        (read_flags-Reserved env.flag_file flag_names (refl, (refl, (refl, tt))))
        (λ flags. Reserved-bind (check_distinct flags) _ (check_distinct-Reserved flags) (λ d.
          Reserved-bind (validate_state_directory env.state_directory) _
            (validate_state_directory-Reserved env.state_directory)
            (λ v. Reserved-bind (check_max max) _ (check_max-Reserved max) (λ m.
              Reserved-bind (load (flag_ids flags) env.state_file) _
                (load-Reserved (flag_ids flags) env.state_file) (λ l. tt))))))
