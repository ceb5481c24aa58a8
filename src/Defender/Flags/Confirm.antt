-- ===== src/Defender/Flags/Confirm.antt =====
-- When a flag counts as acquired, and where its provenance comes from.
use k3df.Base.{
  ok_inj, ◌≡◌, refl, ◌∙◌, ◌⊎◌, inl, inr, true, String, Option, none, some, List, [], ◌∷◌, arith,
  Bool-cases, contains, ok, bind-eq-ok,
}
use k3df.Json.{Value, null, str, Fields, get, value_eq}
use k3df.Defender.Graph.{NodeStatus, confirmed, member, read_status}
use k3df.Defender.Graph.Observe.{metadata_of}
use k3df.Defender.Flags.{
  Flag, Submission, not_submitted, detected, accepted, rejected, referee, read_submission, acquire,
  submitted, append_evidence, revise, update_flag, find_flag, set_flag, normalize_flags,
  apply_flag_evidence,
}
use k3df.Defender.Flags.Vouched.{
  IsVouched, IsJudged, acquire-IsVouched, submitted-IsVouched, submitted-IsJudged, acquire-kept,
  submitted-kept,
}

-- What a piece of evidence may make of a flag.
pub record Revised (metadata : Fields) (f g : Flag) : Type 0 where
  pub id : g.id ≡ f.id
  pub label : g.label ≡ f.label
  pub vouched :
      g.acquisition_status ≡ confirmed → (f.acquisition_status ≡ confirmed) ⊎ IsVouched metadata
  pub kept : f.acquisition_status ≡ confirmed → g.acquisition_status ≡ confirmed
  pub judged : g.provenance ≡ referee → (f.provenance ≡ referee) ⊎ IsJudged metadata

abbrev pub AllRevised : Fields → List Flag → List Flag → Type 0
AllRevised metadata [] [] = Unit
AllRevised metadata (f ∷ fs) (g ∷ gs) = Revised metadata f g × AllRevised metadata fs gs
AllRevised metadata _ _ = ⊥

Revised-refl : (metadata : Fields) (f : Flag) → Revised metadata f f
Revised-refl metadata f = record {
  id = refl;
  label = refl;
  vouched = λ h. inl h;
  kept = λ h. h;
  judged = λ h. inl h;
}

AllRevised-refl : (metadata : Fields) (fs : List Flag) → AllRevised metadata fs fs
AllRevised-refl metadata [] = tt
AllRevised-refl metadata (f ∷ fs) = (Revised-refl metadata f, AllRevised-refl metadata fs)

submitted-acquire-IsVouched :
    (metadata : Fields) (a : Option NodeStatus) (s : Option Submission) (f : Flag)
    → member read_status (get "flag_acquisition_status" metadata) ≡ ok a
    → member read_submission (get "flag_submission_status" metadata) ≡ ok s
    → (submitted s (acquire metadata a f)).acquisition_status ≡ confirmed
    → (f.acquisition_status ≡ confirmed) ⊎ IsVouched metadata
submitted-acquire-IsVouched metadata a s f ma ms h =
    elim (submitted-IsVouched metadata s (acquire metadata a f) ms h) [
      | inl before ↦ acquire-IsVouched metadata a f ma before
      | inr said ↦ inr (inr said)
    ]

submitted_same :
    (s : Option Submission) (f : Flag)
    → ((submitted s f).id ≡ f.id) × ((submitted s f).label ≡ f.label)
unfolding submitted
submitted_same none f = (refl, refl)
submitted_same (some not_submitted) f = (refl, refl)
submitted_same (some accepted) f = (refl, refl)
submitted_same (some detected) f = (refl, refl)
submitted_same (some rejected) f = (refl, refl)

acquire_same :
    (metadata : Fields) (a : Option NodeStatus) (f : Flag)
    → ((acquire metadata a f).id ≡ f.id)
      × ((acquire metadata a f).label ≡ f.label)
      × ((acquire metadata a f).provenance ≡ f.provenance)
unfolding acquire
acquire_same metadata none f = (refl, refl, refl)
acquire_same metadata (some s) f = (refl, refl, refl)

revise-Revised :
    (metadata : Fields) (e : String) (t : Value) (a : Option NodeStatus) (s : Option Submission)
    (f : Flag)
    → member read_status (get "flag_acquisition_status" metadata) ≡ ok a
    → member read_submission (get "flag_submission_status" metadata) ≡ ok s
    → Revised metadata f (revise metadata e t a s f)
unfolding append_evidence
revise-Revised metadata e t a s f ma ms =
    let g = acquire metadata a f in
    let (i, l, p) = acquire_same metadata a f in
    record {
      id = (submitted_same s g).0 ∙ i;
      label = (submitted_same s g).1 ∙ l;
      vouched = submitted-acquire-IsVouched metadata a s f ma ms;
      kept = λ h. submitted-kept s g (acquire-kept metadata a f h);
      judged = λ h. rw p at (submitted-IsJudged metadata s g ms h);
    }

set_flag-AllRevised :
    (metadata : Fields) (id : Value) (f g : Flag) (fs : List Flag)
    → find_flag id fs ≡ some f
    → Revised metadata f g
    → AllRevised metadata fs (set_flag id g fs)
unfolding find_flag set_flag
set_flag-AllRevised metadata id f g [] h r = tt
set_flag-AllRevised metadata id f g (k ∷ fs) h r = elim (Bool-cases (value_eq (str k.id) id)) [
  | inl here ↦ rw (here, first_flag here) (r, AllRevised-refl metadata fs)
  | inr there ↦
      rw there (Revised-refl metadata k, set_flag-AllRevised metadata id f g fs (ground arith) r)
]
  where
    first_flag : value_eq (str k.id) id ≡ true → k ≡ f
    first_flag here = ground arith

update_flag-AllRevised :
    (fs : List Flag) (metadata : Fields) (t e : Value) (found : Option Flag) (new : List Flag)
    → find_flag (get "flag_id" metadata) fs ≡ found
    → update_flag fs metadata t e found ≡ ok new
    → AllRevised metadata fs new
unfolding update_flag
update_flag-AllRevised fs metadata t (str e) (some f) new at h =
    elim (Bool-cases (contains f.evidence_ids e)) [
      | inl there ↦ rw (← unchanged there) (AllRevised-refl metadata fs)
      | inr fresh ↦
          let (a, ma, h₁) =
            bind-eq-ok (member read_status (get "flag_acquisition_status" metadata)) _
              (rw fresh at h) in
          let (s, ms, h₂) =
            bind-eq-ok (member read_submission (get "flag_submission_status" metadata)) _ h₁ in
          rw (← ok_inj h₂) (
            set_flag-AllRevised metadata (get "flag_id" metadata) f (revise metadata e t a s f) fs
              at (revise-Revised metadata e t a s f ma ms))
    ]
  where
    unchanged : contains f.evidence_ids e ≡ true → fs ≡ new
    unchanged there = ground arith
update_flag-AllRevised fs metadata t (str e) none new at h =
    rw (← ok_inj h) (AllRevised-refl metadata fs)
update_flag-AllRevised fs metadata t null found new at h =
    rw (← ok_inj h) (AllRevised-refl metadata fs)
update_flag-AllRevised fs metadata t e found new at h =
    rw (← ok_inj h) (AllRevised-refl metadata fs)

-- If a piece of evidence is applied to the flag objectives without an exception, then for each of
-- the normalised flags: the id and label stay; a flag that is confirmed afterwards was so before,
-- or the metadata claims confirmed with the provenance referee, or carries an accepted
-- submission; a confirmed flag stays confirmed; and a flag of provenance referee had it before,
-- or the metadata carries an accepted or a rejected submission.
pub apply_flag_evidence-AllRevised :
    (objectives : Value) (evidence : Fields) (new : List Flag)
    → apply_flag_evidence objectives evidence ≡ ok new
    → (old : List Flag) × (metadata : Fields) × (normalize_flags objectives ≡ ok old)
      × (metadata_of (get "metadata" evidence) ≡ ok metadata)
      × AllRevised metadata old new
unfolding apply_flag_evidence
apply_flag_evidence-AllRevised objectives evidence new h =
    let (old, ho, h₁) = bind-eq-ok (normalize_flags objectives) _ h in
    let (metadata, hm, h₂) = bind-eq-ok (metadata_of (get "metadata" evidence)) _ h₁ in
    (
      old,
      metadata,
      ho,
      hm,
      update_flag-AllRevised old metadata (get "timestamp" evidence) (get "evidence_id" evidence)
          (find_flag (get "flag_id" metadata) old) new refl h₂,
    )
