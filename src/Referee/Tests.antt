-- ===== src/Referee/Tests.antt =====
-- Runs of the referee at concrete inputs, and the theorems applied to them.
use k3df.Base.{
  ◌+◌, ◌++◌, ok, ◌≤◌, codes, all, not, eqb, sym, ◌∙◌, if◌then◌else◌, ◌==◌, ◌<◌, ap, ℕ, ◌≡◌, ◌≢◌,
  ◌↔◌, refl, true, false, String, none, some, List, [], ◌∷◌, ◌<>◌, arith, contains, text_dec,
  type_error, length,
}
use k3df.Json.{str, obj, end, field, arr, nil, cons, find, hashable}
use k3df.Text.{strip, is_ascii, int_of_text, before}
use k3df.Referee.{
  Artifact, ready, uncaught, read_flag, matches_flag, matches_tail, wrong_flag_owner,
  check_flag_metadata, read_content, validate_state_directory, wrong_state_owner, valid_seed,
  Referee, Environment, missing, document, load, load_fields, saved, save, all_known, find_match,
  compare_digest, submit, written, write_fails, authorized, start, read_flags, distinct_count,
  Write, budget_exhausted, main, exits, diagnostic_text, actual_text, metadata_summary, file_type,
  file_type_text, decimal_text, octal_text, digits, flag_ids, check_seed, check_distinct, check_max,
  flag_names,
}
use k3df.Referee.Http.{Request, dropped, do_post, refusal, candidate_of, well_formed}
use k3df.Referee.Valid.{IsValid}
use k3df.Referee.Run.{run, submit-run_exhausted, contains-run}
use k3df.Referee.Messages.{main-keeps_flags}
use k3df.Referee.Restart.{load-saved}
use k3df.Referee.Answers.{Judges, counted, submit-Judges}
use k3df.Referee.FlagFile.{AcceptedFlag, read_flag_iff}
use k3df.Referee.StartLaws.{start-IsValid}
use k3df.Referee.HttpLaws.{Passes, do_post-Passes, do_post_non_ascii}

abbrev flag_a : String
flag_a = "K3DF{aaaaaaaaaaaaaaaaaaaaaaaaaaaaaaaaaaaaaaaaaaa}"

abbrev flag_b : String
flag_b = "K3DF{bbbbbbbbbbbbbbbbbbbbbbbbbbbbbbbbbbbbbbbbbbb}"

abbrev flag_c : String
flag_c = "K3DF{ccccccccccccccccccccccccccccccccccccccccccc}"

abbrev referee : Referee
referee = record {
  seed = "DemoSeed";
  flags = ("flag-1", flag_a) ∷ ("flag-2", flag_b) ∷ ("flag-3", flag_c) ∷ [];
  max_submissions = 30;
  accepted = "flag-2" ∷ [];
  submission_attempts = 4;
  disk = missing;
}

referee-IsValid : IsValid referee
unfolding text_dec is_ascii
referee-IsValid = record {
  flag_set = record {
    three = refl;
    ids_unique = (refl, (refl, (refl, tt)));
    values_unique = (refl, (refl, (refl, tt)));
    values_ascii = (refl, (refl, (refl, tt)));
  };
  accepted_unique = (refl, tt);
  accepted_known = (refl, tt);
}

submit-Judges_example : Judges "t" flag_a referee (submit (written "t") flag_a referee)
submit-Judges_example = submit-Judges "t" flag_a referee referee-IsValid

abbrev calls : List (Write × String)
calls = (write_fails, flag_a) ∷ (written "t", "é") ∷ []

abbrev nearly_done : Referee
nearly_done = record referee { submission_attempts = 28 }

submit-run_exhausted_example :
    (submit (written "t") flag_a (run calls nearly_done)
      ≡ (ok budget_exhausted, run calls nearly_done))
    ↔ (30 ≤ 28 + 2)
submit-run_exhausted_example = submit-run_exhausted calls (written "t") flag_a nearly_done

contains-run_example :
    contains (run ((written "t", flag_b) ∷ (write_fails, flag_c) ∷ []) referee).accepted "flag-3"
    ≡ true
unfolding text_dec
contains-run_example =
    contains-run "flag-3" flag_c ((written "t", flag_b) ∷ (write_fails, flag_c) ∷ []) referee
      referee-IsValid refl

load-saved_example :
    (ids : List String) × (load (flag_ids referee.flags) (document (saved "t" referee))
      ≡ ready (ids, 4))
    × (length ids ≡ 1)
    × ((a : String) → contains ids a ≡ contains ("flag-2" ∷ []) a)
load-saved_example = load-saved "t" referee referee-IsValid

-- Mode 0100440, as `stat` gives it.
abbrev artifact : String → Artifact
artifact text = record {
  lstat = some (record { st_mode = 0o100440; st_uid = 0; st_gid = 20001; st_size = 50 });
  read_text = some text;
}

read_flag_iff_example :
    (read_flag "flag-1" (artifact (flag_a <> "\n")) ≡ ready flag_a)
    ↔ AcceptedFlag (artifact (flag_a <> "\n")) flag_a
read_flag_iff_example = read_flag_iff "flag-1" (artifact (flag_a <> "\n")) flag_a

read_flag_runs : read_flag "flag-1" (artifact (flag_a <> "\n")) ≡ ready flag_a
unfolding read_flag check_flag_metadata wrong_flag_owner read_content strip matches_flag
    matches_tail text_dec
read_flag_runs = refl

abbrev mounted : String → Artifact
mounted id = artifact (if id == "flag-1" then flag_a else if id == "flag-2" then flag_b else flag_c)

abbrev environment : Environment
environment = record {
  demo_seed = some "DemoSeed";
  flag_file = mounted;
  state_directory =
      some (record { st_mode = 0o40700; st_uid = 10001; st_gid = 10001; st_size = 4096 });
  state_file = missing;
  max_setting = none;
}

abbrev started : Referee
started = record referee { accepted = []; submission_attempts = 0 }

start_runs : start environment ≡ ready started
unfolding start read_flags read_flag check_flag_metadata wrong_flag_owner read_content strip
    matches_flag matches_tail text_dec valid_seed check_seed check_distinct distinct_count check_max
    validate_state_directory wrong_state_owner int_of_text load
start_runs = refl

start-IsValid_example :
    IsValid started
    × (valid_seed "DemoSeed" ≡ true)
    × (0 < 30)
    × (flag_ids started.flags ≡ flag_names)
start-IsValid_example = start-IsValid environment started start_runs

-- An unhashable item in the saved list raises a `TypeError` that is no `InitializationError`.
load_unhashable :
    load ("flag-1" ∷ []) (document (obj (field "accepted" (arr (cons (arr nil) nil)) end)))
    ≡ uncaught type_error
unfolding load load_fields all_known find hashable text_dec
load_unhashable = refl

seed_valid : valid_seed "DemoSeed" ≡ true
unfolding valid_seed
seed_valid = refl

abbrev request : String → Request
request candidate = record {
  path = "/ctf/referee/v1/submissions";
  seed_header = some "DemoSeed";
  content_type = some "application/json; charset=utf-8";
  content_length = some "80";
  body = λ _. some (obj (field "candidate" (str candidate) end));
}

request_counted : (do_post (written "t") referee (request flag_a)).1.submission_attempts ≡ 5
unfolding do_post refusal authorized compare_digest valid_seed is_ascii before candidate_of
    int_of_text find well_formed text_dec submit find_match save
request_counted = refl

request-changes : (do_post (written "t") referee (request flag_a)).1 ≢ referee
request-changes = λ e.
    let same : ◌≡◌ {A = ℕ} 5 4 = sym request_counted ∙ ap (λ r. r.submission_attempts) e in
    absurd (omega arith)

do_post-Passes_example :
    (c : String) × Passes referee (request flag_a) c
    × ((do_post (written "t") referee (request flag_a)).1 ≡ (submit (written "t") c referee).1)
do_post-Passes_example =
    do_post-Passes (written "t") referee (request flag_a) seed_valid request-changes

non_ascii-Passes : Passes referee (request "é") "é"
unfolding before candidate_of int_of_text find well_formed text_dec
non_ascii-Passes = record { path = refl; content = refl; seed = refl; body = refl }

non_ascii : is_ascii "é" ≡ false
unfolding is_ascii
non_ascii = refl

do_post_non_ascii_example :
    do_post (written "t") referee (request "é")
    ≡ (dropped type_error, counted referee referee.accepted)
do_post_non_ascii_example =
    do_post_non_ascii (written "t") referee (request "é") "é" referee-IsValid seed_valid
      non_ascii-Passes non_ascii (omega arith)

-- The files belong to another user.
abbrev misplaced : Environment
misplaced = record environment {
  flag_file = λ id. record {
    lstat = some (record { st_mode = 0o100440; st_uid = 1000; st_gid = 20001; st_size = 50 });
    read_text = some flag_a;
  };
}

abbrev diagnostic : String
diagnostic =
    "Referee initialization failed: category=flag-artifact; target=flag-1; check=ownership-and-mode; expected=uid=0,gid=20001,mode=0440; actual=type=regular-file,uid=1000,gid=20001,mode=0440."

main_runs : main misplaced ≡ exits 1 (codes diagnostic)
unfolding main diagnostic_text actual_text start read_flags read_flag check_flag_metadata
    wrong_flag_owner valid_seed check_seed metadata_summary file_type file_type_text decimal_text
    octal_text digits
main_runs = refl

flag_a-matches : matches_flag flag_a ≡ true
unfolding matches_flag matches_tail
flag_a-matches = refl

main-keeps_flags_example :
    (◌≡◌ {A = ℕ} 1 1)
    × (all (λ c. not (eqb c b'/')) (codes diagnostic) ≡ true)
    × (codes diagnostic ≢ [] ++ codes flag_a ++ [])
main-keeps_flags_example =
    main-keeps_flags misplaced 1 (codes diagnostic) flag_a [] [] main_runs flag_a-matches
