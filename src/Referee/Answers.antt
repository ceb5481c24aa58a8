-- ===== src/Referee/Answers.antt =====
-- What each answer of `submit` says, and what it leaves in memory and on disk.
use k3df.Base.{
  ◌+◌, ◌≤◌, ◌<◌, ◌≡◌, ◌↔◌, refl, true, false, String, Option, none, some, List, length, arith,
  contains, Result, ok, raised, Error, type_error, os_error, Bool-cases, inl, inr, leb,
}
use k3df.Text.{is_ascii}
use k3df.Referee.State.{
  Referee, document, saved, save, flag_ids, add, find_match, Write, written, write_fails, Outcome,
  budget_exhausted, rejected, judged, submit,
}
use k3df.Referee.Start.{flag_values}
use k3df.Referee.Valid.{IsValid, value_of}
use k3df.Referee.Match.{last_match, not-contains_of_none, value_of_match}
use k3df.Referee.Submit.{match-cases, submit-IsValid, won_iff}

-- The state after a counted call: one more attempt, and `ids` accepted.
abbrev pub counted : Referee → List String → Referee
counted r ids = record r { accepted = ids; submission_attempts = r.submission_attempts + 1 }

abbrev pub on_disk : String → Referee → Referee
on_disk now r = record r { disk = document (saved now r) }

-- The specification of a submission whose write succeeds at the time `now`, by its outcome.
abbrev pub Judges : String → String → Referee → Result Outcome × Referee → Type 0
Judges now c r (ok budget_exhausted, r') = (r.max_submissions ≤ r.submission_attempts) × (r' ≡ r)
Judges now c r (ok rejected, r') =
    (r.submission_attempts < r.max_submissions)
    × (contains (flag_values r.flags) c ≡ false)
    × (r' ≡ on_disk now (counted r r.accepted))
Judges now c r (ok (judged duplicate id n w), r') =
    (r.submission_attempts < r.max_submissions)
    × (value_of id r.flags ≡ some c)
    × (duplicate ≡ contains r.accepted id)
    × (n ≡ length r'.accepted)
    × ((w ≡ true)
        ↔ ((j : String) → contains (flag_ids r.flags) j ≡ true → contains r'.accepted j ≡ true))
    × (r' ≡ on_disk now (counted r (add id r.accepted)))
Judges now c r (raised e, r') =
    (r.submission_attempts < r.max_submissions)
    × (is_ascii c ≡ false)
    × (e ≡ type_error)
    × (r' ≡ counted r r.accepted)

submit-Judges_spent :
    (now c : String) (r : Referee)
    → leb r.max_submissions r.submission_attempts ≡ true
    → Judges now c r (submit (written now) c r)
unfolding submit
submit-Judges_spent now c r e = rw e (ground arith, refl)

submit-Judges_raises :
    (now c : String) (r : Referee)
    → leb r.max_submissions r.submission_attempts ≡ false
    → is_ascii c ≡ false
    → find_match c r.flags none ≡ raised type_error
    → Judges now c r (submit (written now) c r)
unfolding submit
submit-Judges_raises now c r e a f = rw (e, f) (ground arith, a, refl, refl)

submit-Judges_misses :
    (now c : String) (r : Referee)
    → leb r.max_submissions r.submission_attempts ≡ false
    → find_match c r.flags none ≡ ok none
    → contains (flag_values r.flags) c ≡ false
    → Judges now c r (submit (written now) c r)
unfolding submit save
submit-Judges_misses now c r e f h = rw (e, f) (ground arith, h, refl)

submit-Judges_hits :
    (now c id : String) (r : Referee)
    → IsValid (submit (written now) c r).1
    → leb r.max_submissions r.submission_attempts ≡ false
    → find_match c r.flags none ≡ ok (some id)
    → value_of id r.flags ≡ some c
    → Judges now c r (submit (written now) c r)
unfolding submit save
submit-Judges_hits now c id r v e f h =
    let r' = on_disk now (counted r (add id r.accepted)) in
    let v' : IsValid r' = rw (e, f) at v in
    rw (e, f) (ground arith, h, refl, refl, won_iff r' v', refl)

submit-Judges_found :
    (now c : String) (r : Referee) (o : Option String)
    → IsValid r
    → leb r.max_submissions r.submission_attempts ≡ false
    → find_match c r.flags none ≡ ok o
    → last_match c r.flags none ≡ o
    → Judges now c r (submit (written now) c r)
submit-Judges_found now c r none v e f m =
    submit-Judges_misses now c r e f (not-contains_of_none c r.flags m)
submit-Judges_found now c r (some id) v e f m =
    submit-Judges_hits now c id r (submit-IsValid (written now) c r v) e f
      (value_of_match c id r.flags v.flag_set.ids_unique m)

-- At a valid referee, a submission whose write succeeds is answered as follows, and changes no
-- more than stated. It answers budget_exhausted and changes nothing when the attempts have
-- reached the maximum. Otherwise one attempt is counted. It answers rejected if no flag has the
-- candidate as its value, and writes the state file. It answers judged with the id of the flag
-- whose value is the candidate, with duplicate telling whether that id was accepted before, with
-- the number of accepted ids after it, and with won exactly if every flag id is then accepted;
-- the id is added and the state file is written. It raises TypeError only for a candidate that is
-- not ASCII, and then nothing is written.
pub submit-Judges :
    (now c : String) (r : Referee) → IsValid r → Judges now c r (submit (written now) c r)
submit-Judges now c r v = elim (Bool-cases (leb r.max_submissions r.submission_attempts)) [
  | inl e ↦ submit-Judges_spent now c r e
  | inr e ↦ elim (match-cases c r v) [
    | inl (a, f) ↦ submit-Judges_found now c r (last_match c r.flags none) v e f refl
    | inr (a, f) ↦ submit-Judges_raises now c r e a f
  ]
]

-- A candidate that is not ASCII: the comparison raises after the attempt was counted in memory,
-- before anything is written.
pub submit_non_ascii :
    (w : Write) (c : String) (r : Referee)
    → IsValid r
    → is_ascii c ≡ false
    → r.submission_attempts < r.max_submissions
    → submit w c r ≡ (raised type_error, counted r r.accepted)
unfolding submit
submit_non_ascii w c r v a lt = elim (match-cases c r v) [
  | inl (b, f) ↦ cc
  | inr (b, f) ↦
      let e : leb r.max_submissions r.submission_attempts ≡ false = ground arith in rw (e, f) refl
]

-- With attempts left, a submission whose write fails raises, and the state file still holds what
-- it held.
pub submit_write_fails :
    (c : String) (r : Referee)
    → r.submission_attempts < r.max_submissions
    → (e : Error) × ((submit write_fails c r).0 ≡ raised e)
      × ((submit write_fails c r).1.disk ≡ r.disk)
unfolding submit save
submit_write_fails c r lt =
    elim (find_match c r.flags none)
        as (λ m.
          m ≡ find_match c r.flags none
          → (e : Error) × ((submit write_fails c r).0 ≡ raised e)
            × ((submit write_fails c r).1.disk ≡ r.disk)) [
              | ok none ↦ λ m. (os_error, ground arith, ground arith)
              | ok (some id) ↦ λ m. (os_error, ground arith, ground arith)
              | raised e ↦ λ m. (e, ground arith, ground arith)
            ]
      refl
