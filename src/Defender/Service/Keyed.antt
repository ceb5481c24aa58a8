-- ===== src/Defender/Service/Keyed.antt =====
-- `_upsert` as the insertion into a finite map, for collections whose keys are distinct texts.
use k3df.Base.{
  ◌≡◌, refl, ap, ◌∙◌, true, Bool-cases, inl, inr, String, Option, none, some, List, [], ◌∷◌, arith,
  if◌then◌else◌, ◌==◌, ok,
}
use k3df.Json.{Value, null, str, obj, Fields, end, field, find, get, set, update, truthy, value_eq}
use k3df.Json.Laws.{find-set}
use k3df.Defender.Service.Upsert.{put_item, upsert}

-- The dict has one entry for a key, as the JSON reader's dicts do.
abbrev pub IsDict : Fields → Type 0
IsDict end = Unit
IsDict (field k v d) = (find k d ≡ none) × IsDict d

abbrev or_else : Option Value → Option Value → Option Value
or_else (some v) o = some v
or_else none o = o

find-update :
    (j : String) (d e : Fields) → IsDict e → find j (update d e) ≡ or_else (find j e) (find j d)
unfolding find update
find-update j d end h = refl
find-update j d (field k v e) h =
    rw (find-update j (set k v d) e h.1, find-set j k v d) (ground (arith, h.0))

-- The first entry whose key is the text.
abbrev pub lookup : String → String → List Value → Option Fields
lookup key t [] = none
lookup key t (obj e ∷ es) =
    let rest = lookup key t es in if value_eq (get key e) (str t) then some e else rest
lookup key t (_ ∷ es) = lookup key t es

-- Every entry is a dict with a text at the key, and no text stands twice.
abbrev pub IsKeyed : String → List Value → Type 0
IsKeyed key [] = Unit
IsKeyed key (obj e ∷ es) =
    ((t : String) × (get key e ≡ str t) × (lookup key t es ≡ none)) × IsKeyed key es
IsKeyed key (_ ∷ es) = ⊥

abbrev pub merged : Option Fields → Fields → Fields
merged none item = item
merged (some e) item = update e item

-- What the insertion of the item at the text makes of the collection.
abbrev pub Inserted : String → String → Fields → List Value → List Value → Type 0
Inserted key t item es es' =
    IsKeyed key es'
    × ((u : String)
        → lookup key u es'
          ≡ (if u == t then some (merged (lookup key t es) item) else lookup key u es))

get-update :
    (key t : String) (e item : Fields)
    → IsDict item
    → get key item ≡ str t
    → get key (update e item) ≡ str t
get-update key t e item d at =
    ap (λ o. elim o [ none ↦ null | some v ↦ v ]) (find-update key e item d)
    ∙ taken (find key item) at
  where
    taken :
        (o : Option Value)
        → elim o [ none ↦ null | some v ↦ v ] ≡ str t
        → elim (or_else o (find key e)) [ none ↦ null | some v ↦ v ] ≡ str t
    taken none h = cc
    taken (some v) h = h

put_item-Inserted :
    (key t : String) (item : Fields) (es : List Value)
    → IsKeyed key es
    → IsDict item
    → get key item ≡ str t
    → (es' : List Value) × (put_item key item es ≡ ok es') × Inserted key t item es es'
unfolding put_item value_eq
put_item-Inserted key t item [] k d at =
    (obj item ∷ [], refl, (((t, at, refl), tt), (λ u. rw at (ground arith))))
put_item-Inserted key t item (obj e ∷ es) ((s, here, apart), k) d at = elim (Bool-cases (s == t)) [
  | inl same ↦
      let at' = get-update key t e item d at in
      (
        obj (update e item) ∷ es,
        rw (here, at, same) refl,
        (((t, at', ground (arith, apart)), k), (λ u. rw (at', here, same) (ground arith))),
      )
  | inr differ ↦
      let (es', put, (k', found)) = put_item-Inserted key t item es k d at in
      (
        obj e ∷ es',
        rw (here, at, differ, put) refl,
        (
          ((s, here, found s ∙ ground (arith, apart)), k'),
          (λ u. rw (here, found u, differ) (ground arith)),
        ),
      )
]
put_item-Inserted key t item (null ∷ es) k d at = absurd k
put_item-Inserted key t item (v ∷ es) k d at = absurd k

-- If every entry of a collection is a dict with a text at the key, no text twice, then _upsert of
-- a dict whose text at the key is not empty raises nothing and keeps that. Looked up by its text,
-- the item is found merged into the entry that had the text, or as it is when none had; every
-- other text finds what it found before.
pub upsert-Inserted :
    (key t : String) (item : Fields) (es : List Value)
    → IsKeyed key es
    → IsDict item
    → get key item ≡ str t
    → truthy (str t) ≡ true
    → (es' : List Value) × (upsert es (obj item) key ≡ ok es') × Inserted key t item es es'
unfolding upsert
upsert-Inserted key t item es k d at set = rw (at, set) (put_item-Inserted key t item es k d at)
