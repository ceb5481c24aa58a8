-- ===== src/Defender/Store/Reload.antt =====
-- A state that is saved and loaded again is the same state.
use k3df.Base.{
  ◌≡◌, refl, ap, ◌∙◌, Bool-cases, inl, inr, String, some, ◌==◌, arith, ok, ◌>>=◌, text_dec,
}
use k3df.Json.Laws.{get_of_find}
use k3df.Json.{Value, str, obj, Fields, end, field, find, set}
use k3df.Defender.Address.{Network}
use k3df.Defender.Config.{Config}
use k3df.Defender.Graph.RoundTrip.{normalize_graph-graph_value}
use k3df.Defender.Flags.RoundTrip.{normalize_flags-flags_value}
use k3df.Defender.Store.{
  StateFile, document, Write, written, attacker_state, migrate, check_schema, read_state, present,
  save, load, recover,
}
use k3df.Defender.Store.Migrate.{IsState, HasKey, find_set_other}

-- Writing what is there changes nothing.
set_same : (k : String) (v : Value) (d : Fields) → find k d ≡ some v → set k v d ≡ d
unfolding find set
set_same k v end h = cc
set_same k v (field j w d) h = elim (Bool-cases (k == j)) [
  | inl same ↦ rw same (ground (arith, h, same))
  | inr other ↦ rw other (ap (field j w) (set_same k v d (rw other at h)))
]

attacker_state_same :
    (d : Fields) → HasKey "estimated_capabilities" d → attacker_state (obj d) ≡ ok (obj d)
unfolding attacker_state
attacker_state_same d (v, h) = rw h (ap (λ d. ok (obj d)) (set_same "estimated_capabilities" v d h))

attacker_state_found :
    (state d : Fields)
    → find "attacker_state" state ≡ some (obj d)
    → HasKey "estimated_capabilities" d
    → attacker_state (present (find "attacker_state" state) (obj end)) ≡ ok (obj d)
attacker_state_found state d h key =
    ap (λ o. attacker_state (present o (obj end))) h ∙ attacker_state_same d key

migrate_same : (state : Fields) → IsState state → migrate state ≡ ok state
unfolding migrate
migrate_same state s =
    let (ns, hn, g) = s.graph in
    let (fs, hf, f) = s.flags in
    let (d, hd, key) = s.attacker in
    rw
      (
        get_of_find "capability_graph" state _ hn,
        normalize_graph-graph_value ns g,
        get_of_find "flag_objectives" state _ hf,
        normalize_flags-flags_value fs f,
        attacker_state_found state d hd key,
        set_same "schema_version" _ state s.version,
        set_same "capability_graph" _ state hn,
        set_same "flag_objectives" _ state hf,
        set_same "attacker_state" _ state hd,
      )
      refl

IsState-updated :
    (state : Fields) (now : String) → IsState state → IsState (set "updated_at" (str now) state)
unfolding text_dec
IsState-updated state now s = record {
  version = find_set_other "schema_version" "updated_at" (str now) state refl ∙ s.version;
  graph = (
    s.graph.0,
    find_set_other "capability_graph" "updated_at" (str now) state refl ∙ s.graph.1,
    s.graph.2,
  );
  flags = (
    s.flags.0,
    find_set_other "flag_objectives" "updated_at" (str now) state refl ∙ s.flags.1,
    s.flags.2,
  );
  attacker = (
    s.attacker.0,
    find_set_other "attacker_state" "updated_at" (str now) state refl ∙ s.attacker.1,
    s.attacker.2,
  );
}

read_state_same : (state : Fields) → IsState state → read_state (document (obj state)) ≡ ok state
unfolding check_schema text_dec
read_state_same state s =
    ap (λ v. check_schema v >>= λ _. migrate state) (get_of_find "schema_version" state _ s.version)
    ∙ migrate_same state s

-- A state of the shape that load returns, saved at any time over any file, is loaded as what was
-- saved, and loading leaves the file as it is, whether writes succeed or not.
pub load-save :
    (text : Network → String) (w : Write) (now later : String) (c : Config) (state : Fields)
    (old : StateFile)
    → IsState state
    → load text w later c (save written now state old).1 ≡ save written now state old
unfolding load save
load-save text w now later c state old s =
    let state' = set "updated_at" (str now) state in
    ap (recover text w later c (document (obj state')))
      (read_state_same state' (IsState-updated state now s))
