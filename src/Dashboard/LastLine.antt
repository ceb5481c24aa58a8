-- ===== src/Dashboard/LastLine.antt =====
-- The last call of the defender's store is the last line of the event file, and the dashboard's first
-- choice.
use k3df.Base.{
  ℕ, zero, suc, ◌-◌, ◌≤◌, ◌≡◌, refl, ap, sym, ◌∙◌, ◌⊎◌, inl, inr, String, Option, none, some, List,
  [], ◌∷◌, ◌++◌, map, length, ok, arith, text_dec,
}
use k3df.Json.{obj, Fields, find}
use k3df.Defender.Collect.Filter.{append_assoc}
use k3df.Defender.Service.{Event, saved}
use k3df.Defender.Service.Written.{Stamp, Call, event_fields, with_line, call_of, event_lines}
use k3df.Dashboard.{
  Line, event, EventFile, missing, lines, undecodable, last_of, skip, reverse_onto, first_reasoning,
  recent_reasoning_event,
}

-- The event file after `event` has appended documents to it.
abbrev pub appended : EventFile → List Fields → EventFile
appended missing ds = lines (map (λ d. event (obj d)) ds)
appended (lines ls) ds = lines (ls ++ map (λ d. event (obj d)) ds)
appended (undecodable ls) ds = undecodable (ls ++ map (λ d. event (obj d)) ds)

reverse_onto-last :
    {A : Type 0} (done xs : List A) (x : A)
    → reverse_onto done (xs ++ (x ∷ [])) ≡ x ∷ reverse_onto done xs
reverse_onto-last done [] x = refl
reverse_onto-last done (y ∷ ys) x = reverse_onto-last (y ∷ done) ys x

skip-last :
    {A : Type 0} (n : ℕ) (xs : List A) (x : A)
    → n ≤ length xs
    → skip n (xs ++ (x ∷ [])) ≡ skip n xs ++ (x ∷ [])
skip-last zero xs x h = refl
skip-last (suc n) [] x h = absurd (omega arith)
skip-last (suc n) (y ∷ ys) x h = skip-last n ys x (omega arith)

length-last : {A : Type 0} (xs : List A) (x : A) → length (xs ++ (x ∷ [])) ≡ suc (length xs)
length-last [] x = refl
length-last (y ∷ ys) x = ap suc (length-last ys x)

-- The last lines begin, in reverse, with the last one.
last_first :
    {A : Type 0} (xs : List A) (x : A)
    → (rest : List A) × (reverse_onto [] (last_of 100 (xs ++ (x ∷ []))) ≡ x ∷ rest)
last_first xs x =
    let n = length (xs ++ (x ∷ [])) - 100 in
    let few : n ≤ length xs = omega (arith, length-last xs x) in
    (
      reverse_onto [] (skip n xs),
      ap (reverse_onto []) (skip-last n xs x few) ∙ reverse_onto-last [] (skip n xs) x,
    )

map-append-one :
    {A B : Type 0} (f : A → B) (xs : List A) (x : A)
    → map f (xs ++ (x ∷ [])) ≡ map f xs ++ (f x ∷ [])
map-append-one f [] x = refl
map-append-one f (y ∷ ys) x = ap (◌∷◌ (f y)) (map-append-one f ys x)

with_line-append :
    (t : Stamp) (cycle : ℕ) (o : Option Call) (ds es : List Fields)
    → with_line t cycle o (ds ++ es) ≡ with_line t cycle o ds ++ es
with_line-append t cycle none ds es = refl
with_line-append t cycle (some c) ds es = refl

-- The documents of the calls end with that of the last one before a save.
pub event_lines-last :
    (iso : ℕ → String) (stamps : ℕ → Stamp) (i : ℕ) (es : List (ℕ × Event)) (cycle later : ℕ)
    (e : Event) (c : Call)
    → call_of iso e ≡ some c
    → (ds : List Fields) × (t : Stamp) × (event_lines iso stamps i
          (es ++ ((cycle, e) ∷ (later, saved) ∷ []))
        ≡ ds ++ (event_fields t cycle c ∷ []))
unfolding event_lines
event_lines-last iso stamps i [] cycle later e c h =
    ([], stamps i, ap (λ o. with_line (stamps i) cycle o []) h)
event_lines-last iso stamps i ((n, f) ∷ es) cycle later e c h =
    let (ds, t, eq) = event_lines-last iso stamps (suc i) es cycle later e c h in
    (
      with_line (stamps i) n (call_of iso f) ds,
      t,
      ap (with_line (stamps i) n (call_of iso f)) eq
          ∙ with_line-append (stamps i) n (call_of iso f) ds (event_fields t cycle c ∷ []),
    )

-- A call whose type the dashboard looks for.
abbrev pub IsReasoning : Call → Type 0
IsReasoning c = (c.kind ≡ "REASONING_END") ⊎ (c.kind ≡ "ERROR")

first_reasoning-event :
    (t : Stamp) (cycle : ℕ) (c : Call) (rest : List Line)
    → IsReasoning c
    → first_reasoning (event (obj (event_fields t cycle c)) ∷ rest)
      ≡ ok (some (event_fields t cycle c))
unfolding first_reasoning find text_dec
first_reasoning-event t cycle c rest (inl is) = rw is refl
first_reasoning-event t cycle c rest (inr is) = rw is refl

first_of_lines :
    (ls : List Line) (ds : List Fields) (t : Stamp) (cycle : ℕ) (c : Call)
    → IsReasoning c
    → first_reasoning (
        reverse_onto []
          (last_of 100 (ls ++ map (λ d. event (obj d)) (ds ++ (event_fields t cycle c ∷ [])))))
      ≡ ok (some (event_fields t cycle c))
first_of_lines ls ds t cycle c h =
    let f = λ (d : Fields). event (obj d) in
    let (rest, e) = last_first (ls ++ map f ds) (f (event_fields t cycle c)) in
    let same =
      ap (λ xs. ls ++ xs) (map-append-one f ds (event_fields t cycle c))
      ∙ sym (append_assoc ls (map f ds) (f (event_fields t cycle c) ∷ [])) in
    ap (λ xs. first_reasoning (reverse_onto [] (last_of 100 xs))) same
    ∙ ap first_reasoning e
    ∙ first_reasoning-event t cycle c rest h

pub recent-appended :
    (file : EventFile) (ds : List Fields) (t : Stamp) (cycle : ℕ) (c : Call)
    → IsReasoning c
    → recent_reasoning_event (appended file (ds ++ (event_fields t cycle c ∷ [])))
      ≡ ok (some (event_fields t cycle c))
unfolding recent_reasoning_event
recent-appended missing ds t cycle c h = first_of_lines [] ds t cycle c h
recent-appended (lines ls) ds t cycle c h = first_of_lines ls ds t cycle c h
recent-appended (undecodable ls) ds t cycle c h = first_of_lines ls ds t cycle c h
