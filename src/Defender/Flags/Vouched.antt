-- ===== src/Defender/Flags/Vouched.antt =====
-- What the parts of one piece of evidence may do to a flag: the acquisition and the submission.
use k3df.Base.{
  ok_inj, ◌≡◌, refl, ap, ◌∙◌, ◌⊎◌, inl, inr, String, Option, none, some, arith, Bool-cases, ok,
}
use k3df.Json.{Value, null, str, Fields, get, hashable}
use k3df.Json.Laws.{str_of_value_eq}
use k3df.Defender.Graph.{NodeStatus, not_observed, suspected, confirmed, member, read_status}
use k3df.Defender.Flags.{
  Flag, Submission, not_submitted, detected, accepted, rejected, referee, read_submission, is_text,
  claimed, raise_status, suspect, acquire, submitted,
}

-- The referee vouches for the acquisition, or has accepted the flag.
abbrev pub IsVouched : Fields → Type 0
IsVouched metadata =
    ((get "flag_acquisition_status" metadata ≡ str "confirmed")
      × (get "flag_provenance" metadata ≡ str "referee"))
    ⊎ (get "flag_submission_status" metadata ≡ str "accepted")

-- The referee has judged a submission.
abbrev pub IsJudged : Fields → Type 0
IsJudged metadata =
    (get "flag_submission_status" metadata ≡ str "accepted")
    ⊎ (get "flag_submission_status" metadata ≡ str "rejected")

member_str :
    {A : Type 0} (read : String → Option A) (v : Value) {a : A}
    → member read v ≡ ok (some a)
    → (s : String) × (v ≡ str s) × (read s ≡ some a)
unfolding member hashable
member_str read (str s) h = (s, refl, ok_inj h)
member_str read null h = cc
member_str read v h = cc

pub read_status-confirmed : (s : String) → read_status s ≡ some confirmed → s ≡ "confirmed"
read_status-confirmed s h = ground arith

read_submission-accepted : (s : String) → read_submission s ≡ some accepted → s ≡ "accepted"
read_submission-accepted s h = ground arith

read_submission-rejected : (s : String) → read_submission s ≡ some rejected → s ≡ "rejected"
read_submission-rejected s h = ground arith

raise_status-confirmed :
    (new old : NodeStatus)
    → raise_status new old ≡ confirmed
    → (new ≡ confirmed) ⊎ (old ≡ confirmed)
raise_status-confirmed confirmed old h = inl refl
raise_status-confirmed suspected confirmed h = inr refl
raise_status-confirmed suspected suspected h = inr h
raise_status-confirmed suspected not_observed h = inl h
raise_status-confirmed not_observed confirmed h = inr refl
raise_status-confirmed not_observed suspected h = inr h
raise_status-confirmed not_observed not_observed h = inr h

claimed-confirmed :
    (metadata : Fields) (s : NodeStatus)
    → claimed metadata s ≡ confirmed
    → (s ≡ confirmed) × (get "flag_provenance" metadata ≡ str "referee")
claimed-confirmed metadata confirmed h =
    elim (Bool-cases (is_text (get "flag_provenance" metadata) "referee")) [
      | inl says ↦ (refl, str_of_value_eq (get "flag_provenance" metadata) "referee" says)
      | inr other ↦ absurd (ground arith)
    ]
claimed-confirmed metadata suspected h = cc
claimed-confirmed metadata not_observed h = cc

pub acquire-IsVouched :
    (metadata : Fields) (a : Option NodeStatus) (f : Flag)
    → member read_status (get "flag_acquisition_status" metadata) ≡ ok a
    → (acquire metadata a f).acquisition_status ≡ confirmed
    → (f.acquisition_status ≡ confirmed) ⊎ IsVouched metadata
unfolding acquire
acquire-IsVouched metadata none f m h = inl h
acquire-IsVouched metadata (some s) f m h =
    elim (raise_status-confirmed (claimed metadata s) f.acquisition_status h) [
      | inr old ↦ inl old
      | inl new ↦
          let (is, prov) = claimed-confirmed metadata s new in
          let (t, eq, read) = member_str read_status (get "flag_acquisition_status" metadata) m in
          inr (inl (eq ∙ ap str (read_status-confirmed t (read ∙ ap some is)), prov))
    ]

suspect-confirmed : (s : NodeStatus) → suspect s ≡ confirmed → s ≡ confirmed
suspect-confirmed confirmed h = refl
suspect-confirmed suspected h = cc
suspect-confirmed not_observed h = cc

submission_text :
    (metadata : Fields) (s : Submission) (t : String)
    → ((u : String) → read_submission u ≡ some s → u ≡ t)
    → member read_submission (get "flag_submission_status" metadata) ≡ ok (some s)
    → get "flag_submission_status" metadata ≡ str t
submission_text metadata s t back m =
    let (u, eq, read) = member_str read_submission (get "flag_submission_status" metadata) m in
    eq ∙ ap str (back u read)

pub submitted-IsVouched :
    (metadata : Fields) (s : Option Submission) (f : Flag)
    → member read_submission (get "flag_submission_status" metadata) ≡ ok s
    → (submitted s f).acquisition_status ≡ confirmed
    → (f.acquisition_status ≡ confirmed) ⊎ (get "flag_submission_status" metadata ≡ str "accepted")
unfolding submitted
submitted-IsVouched metadata none f m h = inl h
submitted-IsVouched metadata (some not_submitted) f m h = inl h
submitted-IsVouched metadata (some accepted) f m h =
    inr (submission_text metadata accepted "accepted" read_submission-accepted m)
submitted-IsVouched metadata (some detected) f m h = inl (suspect-confirmed f.acquisition_status h)
submitted-IsVouched metadata (some rejected) f m h = inl h

pub submitted-IsJudged :
    (metadata : Fields) (s : Option Submission) (f : Flag)
    → member read_submission (get "flag_submission_status" metadata) ≡ ok s
    → (submitted s f).provenance ≡ referee
    → (f.provenance ≡ referee) ⊎ IsJudged metadata
unfolding submitted
submitted-IsJudged metadata none f m h = inl h
submitted-IsJudged metadata (some not_submitted) f m h = inl h
submitted-IsJudged metadata (some accepted) f m h =
    inr (inl (submission_text metadata accepted "accepted" read_submission-accepted m))
submitted-IsJudged metadata (some detected) f m h = inl h
submitted-IsJudged metadata (some rejected) f m h =
    inr (inr (submission_text metadata rejected "rejected" read_submission-rejected m))

pub acquire-kept :
    (metadata : Fields) (a : Option NodeStatus) (f : Flag)
    → f.acquisition_status ≡ confirmed
    → (acquire metadata a f).acquisition_status ≡ confirmed
unfolding acquire
acquire-kept metadata none f h = h
acquire-kept metadata (some s) f h = rw h (raise_onto_confirmed (claimed metadata s))
  where
    raise_onto_confirmed : (s : NodeStatus) → raise_status s confirmed ≡ confirmed
    raise_onto_confirmed confirmed = refl
    raise_onto_confirmed suspected = refl
    raise_onto_confirmed not_observed = refl

pub submitted-kept :
    (s : Option Submission) (f : Flag)
    → f.acquisition_status ≡ confirmed
    → (submitted s f).acquisition_status ≡ confirmed
unfolding submitted
submitted-kept none f h = h
submitted-kept (some not_submitted) f h = h
submitted-kept (some accepted) f h = refl
submitted-kept (some detected) f h = rw h refl
submitted-kept (some rejected) f h = h
