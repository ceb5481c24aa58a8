-- ===== src/Referee/HttpLaws.antt =====
-- Who may change the referee through its HTTP interface, and with which status it answers.
use k3df.Base.{
  type_error, ℕ, ◌<◌, ◌≡◌, ◌≢◌, ◌⊎◌, refl, ◌∙◌, ap, true, false, ◌&&◌, String, Option, none, some,
  List, [], ◌∷◌, arith, ltb, leb, if◌then◌else◌, ◌==◌, text_dec, Option-cases, inl, inr, all, codes,
}
use k3df.Text.{is_ascii, before}
use k3df.Referee.Files.{valid_seed}
use k3df.Referee.State.{Referee, Write, submit, authorized, compare_digest}
use k3df.Referee.Valid.{IsValid}
use k3df.Referee.Answers.{counted, submit_non_ascii}
use k3df.Referee.Http.{
  Request, Answer, reply, dropped, rejected_body, refusal, do_post, candidate_of, well_formed,
  wrong_target, text_or, send_outcome,
}

printable-ascii :
    (cs : List ℕ) → all (λ c. leb 32 c && leb c 126) cs ≡ true → all (λ c. ltb c 128) cs ≡ true
printable-ascii [] h = refl
printable-ascii (c ∷ cs) h = ground (arith, printable-ascii cs)

valid_seed-ascii : (s : String) → valid_seed s ≡ true → is_ascii s ≡ true
unfolding valid_seed is_ascii
valid_seed-ascii s h = printable-ascii (codes s) (ground arith)

-- If the configured seed is valid, a request is let through exactly when its header is the
-- configured seed; it is refused with 401 without a header, with 401 for another valid seed, and
-- with 400 for a text that is no valid seed.
pub refusal_lem :
    (r : Referee) (header : Option String)
    → valid_seed r.seed ≡ true
    → refusal r header ≡ elim header [
      | none ↦ some (reply 401 rejected_body)
      | some s ↦
          if s == r.seed
          then none
          else some (reply (if valid_seed s then 401 else 400) rejected_body)
    ]
unfolding refusal authorized compare_digest
refusal_lem r none v = refl
refusal_lem r (some s) v = ground (arith, valid_seed-ascii s, valid_seed-ascii r.seed v)

-- A request that passes, in the words of the protocol.
pub record Passes (r : Referee) (q : Request) (candidate : String) : Type 0 where
  pub path : q.path ≡ "/ctf/referee/v1/submissions"
  pub content : before b';' (text_or "" q.content_type) ≡ "application/json"
  pub seed : q.seed_header ≡ some r.seed
  pub body : well_formed (candidate_of q) ≡ some candidate

target-cases :
    (q : Request)
    → (wrong_target q ≡ true)
      ⊎ ((q.path ≡ "/ctf/referee/v1/submissions")
          × (before b';' (text_or "" q.content_type) ≡ "application/json")
          × (wrong_target q ≡ false))
target-cases q = ground arith

refusal-cases :
    (r : Referee) (header : Option String)
    → valid_seed r.seed ≡ true
    → ((header ≡ some r.seed) × (refusal r header ≡ none))
      ⊎ ((a : Answer) × (refusal r header ≡ some a))
refusal-cases r none v = inr (reply 401 rejected_body, refusal_lem r none v)
refusal-cases r (some s) v = elim (text_dec s r.seed) [
  | yes p ↦ inl (ap some p, ground (arith, refusal_lem r (some s) v))
  | no p ↦ inr (
    reply (if valid_seed s then 401 else 400) rejected_body,
    ground (arith, refusal_lem r (some s) v),
  )
]

pub do_post-submit :
    (w : Write) (r : Referee) (q : Request) (c : String)
    → valid_seed r.seed ≡ true
    → Passes r q c
    → do_post w r q ≡ send_outcome (submit w c r)
unfolding do_post
do_post-submit w r q c v p =
    let e : refusal r q.seed_header ≡ none =
      rw (p.seed) (ground (arith, refusal_lem r (some r.seed) v)) in
    rw (p.path, p.content, e, p.body) (ground arith)

-- If the configured seed is valid and a POST changes the referee, then its path is the submission
-- path, its content type up to the first semicolon is application/json, its seed header is the
-- configured seed, its body holds a well-formed candidate, and the new state is the one that
-- submit gives for that candidate.
pub do_post-Passes :
    (w : Write) (r : Referee) (q : Request)
    → valid_seed r.seed ≡ true
    → (do_post w r q).1 ≢ r
    → (c : String) × Passes r q c × ((do_post w r q).1 ≡ (submit w c r).1)
unfolding do_post
do_post-Passes w r q v n = elim (target-cases q) [
  | inl t ↦ absurd (n (rw t refl))
  | inr (p, c, t) ↦ elim (refusal-cases r q.seed_header v) [
    | inr (a, e) ↦ absurd (n (rw (t, e) refl))
    | inl (s, e) ↦ elim (Option-cases (well_formed (candidate_of q))) [
      | inl b ↦ absurd (n (rw (t, e, b) refl))
      | inr (candidate, b) ↦ (
        candidate,
        record { path = p; content = c; seed = s; body = b },
        rw (t, e, b) (ground arith),
      )
    ]
  ]
]

-- At a valid referee with a valid seed and attempts left, a passing request whose candidate is
-- not ASCII gets no answer: the connection closes on a TypeError, one attempt is counted in
-- memory, and nothing is written.
pub do_post_non_ascii :
    (w : Write) (r : Referee) (q : Request) (c : String)
    → IsValid r
    → valid_seed r.seed ≡ true
    → Passes r q c
    → is_ascii c ≡ false
    → r.submission_attempts < r.max_submissions
    → do_post w r q ≡ (dropped type_error, counted r r.accepted)
unfolding send_outcome
do_post_non_ascii w r q c v s p a lt =
    do_post-submit w r q c s p ∙ rw (submit_non_ascii w c r v a lt)
