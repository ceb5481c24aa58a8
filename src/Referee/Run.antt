-- ===== src/Referee/Run.antt =====
-- A session: submissions one after another, each with its own write of the state file. The lock
-- of the source makes the calls of `submit` follow one another.
use k3df.Base.{
  take-nil, ap, ℕ, suc, ◌+◌, ◌-◌, ◌≡◌, ◌∙◌, false, not, ◌&&◌, ◌||◌, String, some, List, [], ◌∷◌,
  map, take, arith, contains, ◌==◌, leb, length, ◌≤◌, ◌↔◌, ok,
}
use k3df.Referee.State.{Referee, Write, submit, budget_exhausted}
use k3df.Referee.Valid.{IsValid, value_of}
use k3df.Referee.Submit.{submit-IsValid, submit-flags, contains-submit, attempts-submit, max-submit}

pub run : List (Write × String) → Referee → Referee
run [] r = r
run ((w, c) ∷ calls) r = run calls (submit w c r).1

abbrev pub candidates : List (Write × String) → List String
candidates calls = map (λ (_, c). c) calls

-- A session of submissions keeps a referee valid, whatever is submitted and whichever writes
-- fail.
run-IsValid : (calls : List (Write × String)) (r : Referee) → IsValid r → IsValid (run calls r)
unfolding run
run-IsValid [] r v = v
run-IsValid ((w, c) ∷ calls) r v = run-IsValid calls (submit w c r).1 (submit-IsValid w c r v)

-- The calls that the budget still allows.
abbrev pub budget : Referee → ℕ
budget r = r.max_submissions - r.submission_attempts

budget-submit : (w : Write) (c : String) (r : Referee) → budget (submit w c r).1 ≡ budget r - 1
budget-submit w c r = ground (arith, attempts-submit w c r, max-submit w c r)

-- Every call of a session uses up one of the budget, also one that raises.
budget-run :
    (calls : List (Write × String)) (r : Referee) → budget (run calls r) ≡ budget r - length calls
unfolding run
budget-run [] r = omega arith
budget-run ((w, c) ∷ calls) r =
    ground (arith, budget-run calls (submit w c r).1, budget-submit w c r)

submit-exhausted :
    (w : Write) (c : String) (r : Referee) → budget r ≡ 0 → submit w c r ≡ (ok budget_exhausted, r)
unfolding submit
submit-exhausted w c r h = ground arith

changes_nothing :
    (w : Write) (c : String) (r : Referee) → submit w c r ≡ (ok budget_exhausted, r) → budget r ≡ 0
changes_nothing w c r e = ground (arith, budget-submit w c r, ap (λ p. budget p.1) e)

-- After any session of submissions, whatever they are and whichever writes fail, at any referee,
-- a further submission answers budget_exhausted and changes nothing exactly if the attempts
-- counted before the session and the calls of the session together reach the maximum. Calls that
-- raise count too.
pub submit-run_exhausted :
    (calls : List (Write × String)) (w : Write) (c : String) (r : Referee)
    → (submit w c (run calls r) ≡ (ok budget_exhausted, run calls r))
      ↔ (r.max_submissions ≤ r.submission_attempts + length calls)
submit-run_exhausted calls w c r = (
  λ e. omega (arith, budget-run calls r, changes_nothing w c (run calls r) e),
  λ h. submit-exhausted w c (run calls r) (omega (arith, budget-run calls r)),
)

contains-take-suc :
    (n m : ℕ) (c value : String) (cs : List String)
    → n ≡ suc m
    → contains (take n (c ∷ cs)) value ≡ (value == c || contains (take m cs) value)
contains-take-suc n m c value cs e = rw e

contains-take_zero :
    (n : ℕ) (value : String) (cs : List String) → n ≡ 0 → contains (take n cs) value ≡ false
contains-take_zero n value cs e = rw e

-- One call and the rest of the session share the budget.
contains-take-budget :
    (c value : String) (cs : List String) (r : Referee)
    → contains (take (budget r) (c ∷ cs)) value ≡ (
        (not (leb r.max_submissions r.submission_attempts) && value == c)
        || contains (take (budget r - 1) cs) value)
contains-take-budget c value cs r = ground (
  arith,
  contains-take-suc (budget r) (budget r - 1) c value cs,
  contains-take_zero (budget r) value (c ∷ cs),
  contains-take_zero (budget r - 1) value cs,
)

-- From a valid referee, after any session of submissions, of which any writes may fail, a flag is
-- accepted exactly if it was accepted before or its value stands among the first candidates of
-- the session, as many as the budget had left.
pub contains-run :
    (id value : String) (calls : List (Write × String)) (r : Referee)
    → IsValid r
    → value_of id r.flags ≡ some value
    → contains (run calls r).accepted id
      ≡ (contains r.accepted id || contains (take (budget r) (candidates calls)) value)
unfolding run
contains-run id value [] r v e = rw take-nil (ground arith)
contains-run id value ((w, c) ∷ calls) r v e = ground (
  arith,
  contains-run id value calls (submit w c r).1 (submit-IsValid w c r v)
      (ap (value_of id) (submit-flags w c r) ∙ e),
  ap (λ n. contains (take n (candidates calls)) value) (budget-submit w c r),
  contains-submit w c id value r v e,
  contains-take-budget c value (candidates calls) r,
)
