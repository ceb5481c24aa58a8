-- ===== src/Referee/StartLaws.antt =====
-- What a referee that has started can rely on.
use k3df.Base.{
  text_dec, sym, length-map, ℕ, ◌≤◌, ◌<◌, ◌≡◌, refl, ◌∙◌, ap, true, String, Option, List, [], ◌∷◌,
  arith, length, All, Unique, Within, ok,
}
use k3df.Base.Int.{ℤ}
use k3df.Json.{Value, str, arr, obj, elements, null}
use k3df.Text.{is_ascii, int_of_text}
use k3df.Referee.Files.{
  Artifact, Init, ready, failed, uncaught, ◌>>=◌, read_flag, valid_seed, validate_state_directory,
}
use k3df.Referee.State.{
  Referee, StateFile, missing, corrupt, document, Environment, flag_ids, set_of, all_known, load,
  load_fields,
}
use k3df.Referee.Start.{
  read_flags, flag_names, flag_values, distinct_count, check_seed, check_distinct, check_max,
  or_default, start,
}
use k3df.Referee.FlagFile.{read_flag_iff, matches_flag-ascii}
use k3df.Referee.Valid.{Flags, IsValid}

pub >>=-eq-ready :
    {A B : Type 0} (m : Init A) (f : A → Init B) {b : B}
    → (m >>= f) ≡ ready b
    → (a : A) × (m ≡ ready a) × (f a ≡ ready b)
>>=-eq-ready (ready a) f h = (a, refl, h)
>>=-eq-ready (failed d) f h = cc
>>=-eq-ready (uncaught e) f h = cc

ready_inj : {A : Type 0} {a b : A} → ready a ≡ ready b → a ≡ b
ready_inj h = cc

read_flags-ids :
    (files : String → Artifact) (ids : List String) {flags : Flags}
    → read_flags files ids ≡ ready flags
    → (flag_ids flags ≡ ids) × All (λ f. is_ascii f.1 ≡ true) flags
unfolding read_flags
read_flags-ids files [] {flags} h = rw (← ready_inj h) (refl, tt)
read_flags-ids files (id ∷ ids) {flags} h =
    let (v, e, k) = >>=-eq-ready (read_flag id (files id)) _ h in
    let (rest, e', k') = >>=-eq-ready (read_flags files ids) _ k in
    let (i, a) = read_flags-ids files ids e' in
    let (m, text, l, r, f, q, g) = (read_flag_iff id (files id) v).0 e in
    rw (← ready_inj k') (ap (◌∷◌ id) i, (matches_flag-ascii v g, a))

distinct_count-le : (xs : List String) → distinct_count xs ≤ length xs
unfolding distinct_count
distinct_count-le [] = omega arith
distinct_count-le (x ∷ xs) = ground (arith, distinct_count-le xs)

Unique-of_distinct : (xs : List String) → distinct_count xs ≡ length xs → Unique xs
unfolding distinct_count
Unique-of_distinct [] e = tt
Unique-of_distinct (x ∷ xs) e = ground (arith, distinct_count-le xs, Unique-of_distinct xs)

contains-set_of :
    (vs : List Value) (ids : List String) → all_known ids vs ≡ ok true → Within ids (set_of vs)
unfolding set_of all_known
contains-set_of [] ids h = tt
contains-set_of (str s ∷ vs) ids h = ground (arith, contains-set_of vs ids)
contains-set_of (null ∷ vs) ids h = ground arith
contains-set_of (v ∷ vs) ids h = ground arith

Unique-set_of : (vs : List Value) → Unique (set_of vs)
unfolding set_of
Unique-set_of [] = tt
Unique-set_of (str s ∷ vs) = ground (arith, Unique-set_of vs)
Unique-set_of (v ∷ vs) = Unique-set_of vs

load_fields-set :
    (ids : List String) (a n : Value) {loaded : List String × ℕ}
    → load_fields ids a n ≡ ready loaded
    → (vs : List Value) × (all_known ids vs ≡ ok true) × (loaded.0 ≡ set_of vs)
unfolding load_fields
load_fields-set ids (arr vs) n h = (elements vs, ground arith, ground arith)
load_fields-set ids v n h = absurd (ground arith)

-- Whatever the file holds, a list that `_load` accepts is a set of known ids.
load-accepted :
    (ids : List String) (file : StateFile) {loaded : List String × ℕ}
    → load ids file ≡ ready loaded
    → Unique (loaded.0) × Within ids (loaded.0)
unfolding load
load-accepted ids missing h = rw (← ready_inj h) (tt, tt)
load-accepted ids corrupt h = cc
load-accepted ids (document (obj d)) {loaded} h =
    let (vs, known, e) = load_fields-set ids _ _ h in
    rw e (Unique-set_of vs, contains-set_of vs ids known)
load-accepted ids (document v) h = absurd (ground arith)

check_seed-valid : (seed : String) {s : String} → check_seed seed ≡ ready s → valid_seed s ≡ true
unfolding check_seed
check_seed-valid seed h = ground arith

check_distinct-Unique :
    (flags : Flags)
    → length flags ≡ 3
    → check_distinct flags ≡ ready tt
    → Unique (flag_values flags)
unfolding check_distinct
check_distinct-Unique flags three h =
    Unique-of_distinct (flag_values flags) (ground (arith, length-map (λ (_, v). v) flags))

check_max-pos : (n : Option ℤ) {max : ℕ} → check_max n ≡ ready max → 0 < max
unfolding check_max
check_max-pos n h = ground arith

flag_names-Unique : Unique flag_names
unfolding text_dec
flag_names-Unique = (refl, (refl, (refl, tt)))

-- A referee that starts is valid (three flags under distinct ids with distinct ASCII values, and
-- a set of accepted ids among them), has a valid seed and a positive maximum, and its flag ids
-- are flag-1, flag-2 and flag-3.
pub start-IsValid :
    (env : Environment) (r : Referee)
    → start env ≡ ready r
    → IsValid r
      × (valid_seed r.seed ≡ true)
      × (0 < r.max_submissions)
      × (flag_ids r.flags ≡ flag_names)
unfolding start
start-IsValid env r h =
    let (seed, s, h₁) = >>=-eq-ready (check_seed (or_default "ValidationSeed" env.demo_seed)) _ h in
    let (flags, f, h₂) = >>=-eq-ready (read_flags env.flag_file flag_names) _ h₁ in
    let (_, d, h₃) = >>=-eq-ready (check_distinct flags) _ h₂ in
    let (_, _, h₄) = >>=-eq-ready (validate_state_directory env.state_directory) _ h₃ in
    let (max, m, h₅) =
      >>=-eq-ready (check_max (int_of_text (or_default "30" env.max_setting))) _ h₄ in
    let (loaded, l, h₆) = >>=-eq-ready (load (flag_ids flags) env.state_file) _ h₅ in
    let (ids, ascii) = read_flags-ids env.flag_file flag_names f in
    let three : length flags ≡ 3 = sym (length-map (λ (id, _). id) flags) ∙ ap length ids in
    let (u, k) = load-accepted (flag_ids flags) env.state_file l in
    rw (← ready_inj h₆) (
      record {
        flag_set = record {
          three = three;
          ids_unique = rw ids flag_names-Unique;
          values_unique = check_distinct-Unique flags three d;
          values_ascii = ascii;
        };
        accepted_unique = u;
        accepted_known = k;
      },
      check_seed-valid _ s,
      check_max-pos _ m,
      ids,
    )
