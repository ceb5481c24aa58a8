-- ===== src/Defender/Flags/RoundTrip.antt =====
-- Flag objectives that are stored and normalised again are the same.
use k3df.Base.{
  Result, ◌>>=◌, ◌≤◌, ◌≡◌, refl, ap, ◌∙◌, String, List, [], ◌∷◌, length, Unique, All, ok, ok_inj,
  bind-eq-ok, traverse, text_dec, map, arith,
}
use k3df.Json.{Value, null, arr, obj, Fields, end, find, get, elements}
use k3df.Json.Laws.{elements-items}
use k3df.Defender.Graph.{member, read_status, known_get, keyed}
use k3df.Defender.Graph.Valid.{IsTime, stored_ids-Unique, stored_ids-few, stored_text-IsTime}
use k3df.Defender.Graph.RoundTrip.{
  fields_of, read_status-status_text, stored_ids-items, stored_text_time,
}
use k3df.Defender.Flags.{
  Flag, read_submission, read_provenance, default_flag_objectives, known_flags, merge_flag,
  merge_flags, flags_of, normalize_flags,
}
use k3df.Defender.Flags.Stored.{read_submission-submission_text, read_provenance-provenance_text}
use k3df.Defender.Store.{flag_value, flags_value}

-- The flag is the objective `d`, with at most 100 distinct pieces of evidence and a time.
pub record IsFlagOf (f : Flag) (d : Flag) : Type 0 where
  pub id : f.id ≡ d.id
  pub label : f.label ≡ d.label
  pub few : length f.evidence_ids ≤ 100
  pub distinct : Unique f.evidence_ids
  pub time : IsTime f.updated_at

abbrev pub AreFlagsOf : List Flag → List Flag → Type 0
AreFlagsOf [] [] = Unit
AreFlagsOf (f ∷ fs) (d ∷ ds) = IsFlagOf f d × AreFlagsOf fs ds
AreFlagsOf _ _ = ⊥

-- An objective that nothing was merged into.
abbrev IsNew : Flag → Type 0
IsNew d = (d.evidence_ids ≡ []) × (d.updated_at ≡ null)

merge_flag-IsFlagOf :
    (d : Flag) (stored : Fields) (f : Flag) → IsNew d → merge_flag d stored ≡ ok f → IsFlagOf f d
unfolding merge_flag
merge_flag-IsFlagOf d stored f (e, u) h =
    let (a, ha, h₁) = bind-eq-ok (member read_status (get "acquisition_status" stored)) _ h in
    let (s, hs, h₂) = bind-eq-ok (member read_submission (get "submission_status" stored)) _ h₁ in
    let (p, hp, h₃) = bind-eq-ok (member read_provenance (get "provenance" stored)) _ h₂ in
    rw (← ok_inj h₃) (record {
      id = refl;
      label = refl;
      few = rw e (stored_ids-few (get "evidence_ids" stored));
      distinct = rw e (stored_ids-Unique (get "evidence_ids" stored));
      time = rw u (stored_text-IsTime (get "updated_at" stored));
    })

merge-AreFlagsOf :
    (known : List (String × Fields)) (ds fs : List Flag)
    → All IsNew ds
    → traverse (λ d. merge_flag d (known_get d.id known end)) ds ≡ ok fs
    → AreFlagsOf fs ds
merge-AreFlagsOf known [] fs n h = rw (← ok_inj h) tt
merge-AreFlagsOf known (d ∷ ds) fs n h =
    let (f, hf, h₁) = bind-eq-ok (merge_flag d (known_get d.id known end)) _ h in
    let (gs, hg, h₂) =
      bind-eq-ok (traverse (λ d. merge_flag d (known_get d.id known end)) ds) _ h₁ in
    rw (← ok_inj h₂) (
      merge_flag-IsFlagOf d (known_get d.id known end) f n.0 hf,
      merge-AreFlagsOf known ds gs n.1 hg,
    )

abbrev pub AreFlags : List Flag → Type 0
AreFlags fs = AreFlagsOf fs default_flag_objectives

default-IsNew : All IsNew default_flag_objectives
default-IsNew = ground arith

default_AreFlags : (fs : List Flag) → ok default_flag_objectives ≡ ok fs → AreFlags fs
default_AreFlags fs h = rw (← ok_inj h) (ground arith)

flags_of-AreFlags : (v : Value) (fs : List Flag) → flags_of v ≡ ok fs → AreFlags fs
unfolding merge_flags
flags_of-AreFlags (arr vs) fs h =
    let (known, hk, h₁) = bind-eq-ok (known_flags (elements vs)) _ h in
    merge-AreFlagsOf known default_flag_objectives fs default-IsNew h₁
flags_of-AreFlags null fs h = default_AreFlags fs h
flags_of-AreFlags v fs h = default_AreFlags fs h

pub normalize_flags-AreFlags :
    (v : Value) (fs : List Flag) → normalize_flags v ≡ ok fs → AreFlags fs
unfolding normalize_flags
normalize_flags-AreFlags (obj d) fs h = flags_of-AreFlags (get "flags" d) fs h
normalize_flags-AreFlags null fs h = default_AreFlags fs h
normalize_flags-AreFlags v fs h = default_AreFlags fs h

merge_flag-stored :
    (f d : Flag) → IsNew d → IsFlagOf f d → merge_flag d (fields_of (flag_value f)) ≡ ok f
unfolding merge_flag flag_value find text_dec member
merge_flag-stored f d (e, u) v =
    rw
      (
        read_status-status_text f.acquisition_status,
        read_submission-submission_text f.submission_status,
        read_provenance-provenance_text f.provenance,
        stored_ids-items f.evidence_ids d.evidence_ids v.distinct v.few,
        u,
        stored_text_time f.updated_at v.time,
        ← v.id,
        ← v.label,
      )
      refl

-- Three entries under the ids of the objectives.
known_three :
    (i j k : String) (x y z : Fields)
    → i ≡ "flag_1"
    → j ≡ "flag_2"
    → k ≡ "flag_3"
    → (known_get "flag_1" ((i, x) ∷ (j, y) ∷ (k, z) ∷ []) end ≡ x)
      × (known_get "flag_2" ((i, x) ∷ (j, y) ∷ (k, z) ∷ []) end ≡ y)
      × (known_get "flag_3" ((i, x) ∷ (j, y) ∷ (k, z) ∷ []) end ≡ z)
unfolding known_get text_dec
known_three i j k x y z hi hj hk = rw (hi, hj, hk) (refl, refl, refl)

known_flags-stored :
    (f g h : Flag)
    → known_flags (map flag_value (f ∷ g ∷ h ∷ []))
      ≡ ok (
          (f.id, fields_of (flag_value f))
          ∷ (g.id, fields_of (flag_value g))
          ∷ (h.id, fields_of (flag_value h))
          ∷ [])
unfolding known_flags flag_value find text_dec keyed
known_flags-stored f g h = refl

abbrev merge_known : List (String × Fields) → Result (List Flag)
merge_known known = traverse (λ f. merge_flag f (known_get f.id known end)) default_flag_objectives

merge_flags-known :
    (fs : List Flag)
    → normalize_flags (flags_value fs) ≡ (known_flags (map flag_value fs) >>= merge_known)
unfolding normalize_flags merge_flags flags_value find text_dec
merge_flags-known fs = rw (elements-items (map flag_value fs)) refl

merge_three :
    (known : List (String × Fields)) (f g h : Flag)
    → AreFlags (f ∷ g ∷ h ∷ [])
    → known_get "flag_1" known end ≡ fields_of (flag_value f)
    → known_get "flag_2" known end ≡ fields_of (flag_value g)
    → known_get "flag_3" known end ≡ fields_of (flag_value h)
    → merge_known known ≡ ok (f ∷ g ∷ h ∷ [])
merge_three known f g h (vf, (vg, (vh, _))) ef eg eh =
    rw
      (
        ef,
        merge_flag-stored f _ (refl, refl) vf,
        eg,
        merge_flag-stored g _ (refl, refl) vg,
        eh,
        merge_flag-stored h _ (refl, refl) vh,
      )
      refl

-- Flag objectives as a normalisation leaves them, stored and normalised again, are the same.
pub normalize_flags-flags_value :
    (fs : List Flag) → AreFlags fs → normalize_flags (flags_value fs) ≡ ok fs
normalize_flags-flags_value (f ∷ g ∷ h ∷ []) v =
    let x = fields_of (flag_value f) in
    let y = fields_of (flag_value g) in
    let z = fields_of (flag_value h) in
    let (e₁, e₂, e₃) = known_three f.id g.id h.id x y z v.0.id v.1.0.id v.1.1.0.id in
    merge_flags-known (f ∷ g ∷ h ∷ [])
    ∙ ap (λ r. r >>= merge_known) (known_flags-stored f g h)
    ∙ merge_three ((f.id, x) ∷ (g.id, y) ∷ (h.id, z) ∷ []) f g h v e₁ e₂ e₃
normalize_flags-flags_value [] v = absurd v
normalize_flags-flags_value (f ∷ []) v = absurd v.1
normalize_flags-flags_value (f ∷ g ∷ []) v = absurd v.1.1
normalize_flags-flags_value (f ∷ g ∷ h ∷ i ∷ fs) v = absurd v.1.1.1
