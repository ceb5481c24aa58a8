-- ===== src/Defender/Collect/Filter.antt =====
-- `collect` keeps the evidence that is not from a trusted network, in order, and counts all of it.
use k3df.Base.{
  ◌+◌, ◌≡◌, refl, sym, ap, suc, none, some, Option, Bool, true, false, Error, ◌∙◌, List, [], ◌∷◌,
  ◌++◌, length, length-append, arith, if◌then◌else◌, Bool-cases, inl, inr,
}
use k3df.Defender.Address.{Network}
use k3df.Defender.Evidence.{Evidence}
use k3df.Defender.Collect.{
  Collected, is_trusted, ignore, accept, collect, evidence_ignored, evidence_taken, add_collected,
  go_on, CollectEvent, write_collected,
}

abbrev pub untrusted : List Network → List Evidence → List Evidence
untrusted networks [] = []
untrusted networks (e ∷ es) =
    if is_trusted networks e then untrusted networks es else e ∷ untrusted networks es

pub append_assoc : {A : Type 0} (xs ys zs : List A) → (xs ++ ys) ++ zs ≡ xs ++ (ys ++ zs)
append_assoc [] ys zs = refl
append_assoc (x ∷ xs) ys zs = ap (◌∷◌ x) (append_assoc xs ys zs)

pub append_nil : {A : Type 0} (xs : List A) → xs ++ [] ≡ xs
append_nil [] = refl
append_nil (x ∷ xs) = ap (◌∷◌ x) (append_nil xs)

step_to :
    (networks : List Network) (e : Evidence) (es : List Evidence) (s s' : Collected)
    → (if is_trusted networks e then ignore e s else accept e s) ≡ (s', none)
    → collect networks (e ∷ es) s ≡ collect networks es s'
unfolding collect
step_to networks e es s s' h = ap (go_on (collect networks es)) h

-- If every write succeeds, collect raises nothing and appends to the accepted list the items
-- whose source is not in a trusted network, in their order, and adds their number to the evidence
-- count; the evidence count and the ignored count together grow by the number of all items, and
-- so does the number of events.
pub collect-untrusted :
    (networks : List Network) (es : List Evidence) (s : Collected)
    → s.writes ≡ []
    → ((collect networks es s).1 ≡ none)
      × ((collect networks es s).0.writes ≡ [])
      × ((collect networks es s).0.accepted ≡ s.accepted ++ untrusted networks es)
      × ((collect networks es s).0.evidence_count
          ≡ s.evidence_count + length (untrusted networks es))
      × ((collect networks es s).0.evidence_count + (collect networks es s).0.ignored_evidence_count
          ≡ s.evidence_count + s.ignored_evidence_count + length es)
      × (length (collect networks es s).0.events ≡ length s.events + length es)
unfolding collect
collect-untrusted networks [] s q =
    (refl, q, sym (append_nil s.accepted), omega arith, omega arith, omega arith)
collect-untrusted networks (e ∷ es) s q = elim (Bool-cases (is_trusted networks e)) [
  | inl trusted ↦
      let ev = evidence_ignored e.related_source_ip e.evidence_id in
      let s' =
        add_collected ev (record s { ignored_evidence_count = suc s.ignored_evidence_count }) in
      let (n, w, a, c, t, l) = collect-untrusted networks es s' q in
      let step = step_to networks e es s s' (rw (trusted, q) refl) in
      rw (step, trusted)
        (n, w, a, c, omega (arith, t), omega (arith, l, length-append s.events (ev ∷ [])))
  | inr other ↦
      let s' =
        add_collected (evidence_taken e)
          (record s { accepted = s.accepted ++ (e ∷ []); evidence_count = suc s.evidence_count }) in
      let (n, w, a, c, t, l) = collect-untrusted networks es s' q in
      let step = step_to networks e es s s' (rw (other, q) refl) in
      rw (step, other)
        (
          n,
          w,
          a ∙ append_assoc s.accepted (e ∷ []) (untrusted networks es),
          omega (arith, c),
          omega (arith, t),
          omega (arith, l, length-append s.events (evidence_taken e ∷ [])),
        )
]

go_on_split :
    (next : Collected → Collected × Option Error) (r : Collected × Option Error)
    → (go_on next r).1 ≡ none
    → go_on next r ≡ next r.0
go_on_split next (s, none) h = refl
go_on_split next (s, some e) h = cc

write_collected-accepted :
    (e : CollectEvent) (ws : List Bool) (s : Collected)
    → (write_collected e ws s).0.accepted ≡ s.accepted
write_collected-accepted e [] s = refl
write_collected-accepted e (true ∷ ws) s = refl
write_collected-accepted e (false ∷ ws) s = refl

taken :
    (networks : List Network) (e : Evidence) (es : List Evidence) (s : Collected)
    → (if is_trusted networks e then ignore e s else accept e s).0.accepted ++ untrusted networks es
      ≡ s.accepted ++ untrusted networks (e ∷ es)
taken networks e es s = elim (Bool-cases (is_trusted networks e)) [
  | inl trusted ↦ rw trusted (
      ap (λ xs. xs ++ untrusted networks es)
        (write_collected-accepted (evidence_ignored e.related_source_ip e.evidence_id) s.writes
          (record s { ignored_evidence_count = suc s.ignored_evidence_count })))
  | inr other ↦ rw other (
      ap (λ xs. xs ++ untrusted networks es)
        (write_collected-accepted (evidence_taken e) s.writes
          (record s { accepted = s.accepted ++ (e ∷ []); evidence_count = suc s.evidence_count }))
      ∙ append_assoc s.accepted (e ∷ []) (untrusted networks es))
]

-- A collection that raises nothing accepts the items from no trusted network, whichever of its
-- writes are left.
pub collect-accepted :
    (networks : List Network) (es : List Evidence) (s : Collected)
    → (collect networks es s).1 ≡ none
    → (collect networks es s).0.accepted ≡ s.accepted ++ untrusted networks es
unfolding collect
collect-accepted networks [] s h = sym (append_nil s.accepted)
collect-accepted networks (e ∷ es) s h =
    let r = if is_trusted networks e then ignore e s else accept e s in
    let step = go_on_split (collect networks es) r h in
    ap (λ q. q.0.accepted) step
    ∙ collect-accepted networks es r.0 (ap (λ q. q.1) (sym step) ∙ h)
    ∙ taken networks e es s
