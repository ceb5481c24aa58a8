-- ===== src/Referee/State.antt =====
-- `class Referee`: construction, persistence and `submit`. An external failure of a write is an
-- argument; the state file is the JSON document that it holds.
use Prim.Native.String.{compare}
use Prim.Native.Nat.{Ordering}
use k3df.Base.{
  ℕ, ◌+◌, Bool, true, false, ◌&&◌, String, Option, none, some, List, [], ◌∷◌, ◌++◌, length, leb,
  eqb, if◌then◌else◌, ◌==◌, contains, Result, ok, raised, type_error, os_error, map,
}
use k3df.Base.Int.{ℤ, pos, negsuc}
use k3df.Json.{Value, bool, int, str, arr, obj, nil, end, field, get_or}
use k3df.Json.{elements, items, hashable, bool_int}
use k3df.Text.{is_ascii}
use k3df.Referee.Files.{
  Init, ready, uncaught, ◌>>=◌, Artifact, Metadata, valid_seed, initialization_error,
  invalid_or_unreadable,
}

-- The state file, which may be missing, unreadable or no JSON.
pub data StateFile : Type 0 where
  missing corrupt : StateFile
  document : Value → StateFile

pub record Referee : Type 0 where
  pub seed : String
  pub flags : List (String × String)
  pub max_submissions : ℕ
  pub accepted : List String
  pub submission_attempts : ℕ
  pub disk : StateFile

-- What the constructor finds outside: environment variables and mounted files.
pub record Environment : Type 0 where
  pub demo_seed : Option String
  pub flag_file : String → Artifact
  pub state_directory : Option Metadata
  pub state_file : StateFile
  pub max_setting : Option String

-- `set.add`
unfoldable pub add : String → List String → List String
add x s = if contains s x then s else s ++ (x ∷ [])

-- `set(values)` for a list that was checked to hold texts.
unfoldable pub set_of : List Value → List String
set_of [] = []
set_of (str s ∷ vs) = let rest = set_of vs in if contains rest s then rest else s ∷ rest
set_of (_ ∷ vs) = set_of vs

-- `all(item in self.flags for item in accepted)`, which stops at the first item that is not a key.
unfoldable pub all_known : List String → List Value → Result Bool
all_known ids [] = ok true
all_known ids (str s ∷ vs) =
    let rest = all_known ids vs in if contains ids s then rest else ok false
all_known ids (v ∷ _) = if hashable v then ok false else raised type_error

abbrev pub flag_ids : List (String × String) → List String
flag_ids flags = map (λ (id, _). id) flags

abbrev pub bad_state : {A : Type 0} → Init A
bad_state =
    initialization_error "referee-state" "state-file" "content" "valid-state-schema"
      invalid_or_unreadable

abbrev pub natural : ℤ → Init ℕ
natural (pos n) = ready n
natural (negsuc _) = bad_state

-- `isinstance(attempts, int)` and `attempts >= 0`
unfoldable pub attempts_of : Value → Init ℕ
attempts_of (int n) = natural n
attempts_of (bool b) = natural (bool_int b)
attempts_of _ = bad_state

-- The tests of `_load` run from left to right, so a bad list is reported before a bad count.
unfoldable pub load_fields : List String → Value → Value → Init (List String × ℕ)
unfolding attempts_of
load_fields ids (arr vs) attempts = elim (all_known ids (elements vs)) [
  | ok true ↦ attempts_of attempts >>= λ n. ready (set_of (elements vs), n)
  | ok false ↦ bad_state
  | raised e ↦ uncaught e
]
load_fields ids _ attempts = bad_state

unfoldable pub load : List String → StateFile → Init (List String × ℕ)
unfolding load_fields
load ids missing = ready ([], 0)
load ids corrupt = bad_state
load ids (document (obj d)) =
    load_fields ids (get_or "accepted" (arr nil) d) (get_or "submission_attempts" (int (pos 0)) d)
load ids (document _) = bad_state

abbrev str_leb : String → String → Bool
str_leb a b = elim (compare a b) [ Ordering.gt ↦ false | _ ↦ true ]

-- `sorted(values)` on texts.
unfoldable pub insert_sorted : String → List String → List String
insert_sorted x [] = x ∷ []
insert_sorted x (y ∷ ys) = if str_leb x y then x ∷ y ∷ ys else y ∷ insert_sorted x ys

unfoldable pub sorted : List String → List String
unfolding insert_sorted
sorted [] = []
sorted (x ∷ xs) = insert_sorted x (sorted xs)

abbrev pub won : Referee → Bool
won r = eqb (length r.accepted) 3

-- The document that `_save` writes, at the time `now`.
unfoldable pub saved : String → Referee → Value
saved now r = obj (
    field "schema_version" (str "1.0") (
      field "accepted" (arr (items (map str (sorted r.accepted)))) (
        field "accepted_count" (int (pos (length r.accepted))) (
          field "total" (int (pos 3)) (
            field "won" (bool (won r)) (
              field "submission_attempts" (int (pos r.submission_attempts)) (
                field "max_submissions" (int (pos r.max_submissions))
                  (field "updated_at" (str now) end))))))))

-- One write of the state file: it replaces the file as a whole, or raises and leaves it.
pub data Write : Type 0 where
  written : String → Write
  write_fails : Write

unfoldable pub save : Write → Referee → Result (Unit {0}) × Referee
save (written now) r = (ok tt, record r { disk = document (saved now r) })
save write_fails r = (raised os_error, r)

-- `hmac.compare_digest` on texts takes ASCII texts alone.
unfoldable pub compare_digest : String → String → Result Bool
compare_digest a b = if is_ascii a && is_ascii b then ok (a == b) else raised type_error

-- The loop of `submit`: the last flag whose value is the candidate.
unfoldable pub find_match : String → List (String × String) → Option String → Result (Option String)
unfolding compare_digest
find_match candidate [] found = ok found
find_match candidate ((id, original) ∷ flags) found = elim (compare_digest candidate original) [
  | ok same ↦ find_match candidate flags (if same then some id else found)
  | raised e ↦ raised e
]

-- What `submit` returns.
pub data Outcome : Type 0 where
  budget_exhausted rejected : Outcome
  judged : (duplicate : Bool) (flag_id : String) (accepted_count : ℕ) (won : Bool) → Outcome

abbrev answer : Outcome → Result (Unit {0}) × Referee → Result Outcome × Referee
answer o (ok _, r) = (ok o, r)
answer o (raised e, r) = (raised e, r)

conclude : Write → Referee → Result (Option String) → Result Outcome × Referee
conclude w r (raised e) = (raised e, r)
conclude w r (ok none) = answer rejected (save w r)
conclude w r (ok (some id)) =
    let r' = record r { accepted = add id r.accepted } in
    answer (judged (contains r.accepted id) id (length r'.accepted) (won r')) (save w r')

-- `submit`. An exception leaves what was assigned before it.
unfoldable pub submit : Write → String → Referee → Result Outcome × Referee
unfolding conclude
submit w candidate r =
    if leb r.max_submissions r.submission_attempts
    then (ok budget_exhausted, r)
    else (let r' = record r { submission_attempts = r.submission_attempts + 1 } in
        conclude w r' (find_match candidate r.flags none))

-- `authorized`. A seed that passes `valid_seed` is ASCII, so the comparison does not raise.
unfoldable pub authorized : String → Referee → Result Bool
authorized candidate r = if valid_seed candidate then compare_digest candidate r.seed else ok false
