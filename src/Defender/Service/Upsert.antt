-- ===== src/Defender/Service/Upsert.antt =====
-- defender/service.py: `_upsert`, on a list of values that `state` holds. Every item is read by
-- `get`, which only a dict has.
use k3df.Base.{String, List, [], ◌∷◌, if◌then◌else◌, Result, ok, raised, attribute_error, ◌>>=◌}
use k3df.Json.{Value, obj, Fields, get, update, truthy, value_eq}

-- The first entry with the value at the key is updated; without one the item is appended.
unfoldable pub put_item : String → Fields → List Value → Result (List Value)
put_item key item [] = ok (obj item ∷ [])
put_item key item (obj e ∷ es) =
    let rest = put_item key item es in
    if value_eq (get key e) (get key item)
    then ok (obj (update e item) ∷ es)
    else (rest >>= λ es'. ok (obj e ∷ es'))
put_item key item (_ ∷ es) = raised attribute_error

-- `_upsert(collection, item, key)`
unfoldable pub upsert : List Value → Value → String → Result (List Value)
upsert collection (obj item) key =
    if truthy (get key item) then put_item key item collection else ok collection
upsert collection _ key = raised attribute_error
