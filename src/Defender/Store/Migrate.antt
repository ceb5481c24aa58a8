-- ===== src/Defender/Store/Migrate.antt =====
-- What a loaded state has, whichever version the file holds, and what is written in its place.
use k3df.Base.{
  ok_inj, ◌≡◌, ◌⊎◌, inl, inr, refl, sym, ap, ◌∙◌, false, String, some, List, arith, ◌==◌, text_dec,
  Result, ok, raised, Error, type_error, value_error, os_error, bind-eq-ok,
}
use k3df.Json.{truthy, clamp, scale, Value, null, str, obj, Fields, end, find, get, set, hashable}
use k3df.Json.Laws.{find-set}
use k3df.Defender.Address.{Network}
use k3df.Defender.Config.{Config}
use k3df.Defender.Graph.{
  node_value, keyed, known_get, first_texts, member, Node, default_graph, normalize_graph,
  graph_value,
}
use k3df.Defender.Graph.Valid.{IsGraph, normalize_graph-IsGraph}
use k3df.Defender.Flags.RoundTrip.{AreFlags, normalize_flags-AreFlags}
use k3df.Defender.Flags.{Flag, default_flag_objectives, normalize_flags}
use k3df.Defender.Store.{
  StateFile, unreadable, document, Write, written, write_fails, default_state, migrate,
  attacker_state, present, check_schema, read_state, save, recover, recovers, load, flags_value,
  flag_value,
}

abbrev pub HasKey : String → Fields → Type 0
HasKey k d = (v : Value) × (find k d ≡ some v)

-- What the other parts of the defender read of a state without a test.
pub record IsState (state : Fields) : Type 0 where
  pub version : find "schema_version" state ≡ some (str "2.0")
  pub graph :
      (ns : List Node) × (find "capability_graph" state ≡ some (graph_value ns)) × IsGraph ns
  pub flags :
      (fs : List Flag) × (find "flag_objectives" state ≡ some (flags_value fs)) × AreFlags fs
  pub attacker :
      (d : Fields) × (find "attacker_state" state ≡ some (obj d))
      × HasKey "estimated_capabilities" d

find_set_same : (k : String) (v : Value) (d : Fields) → find k (set k v d) ≡ some v
find_set_same k v d = ground (arith, find-set k k v d)

pub find_set_other :
    (j k : String) (v : Value) (d : Fields) → (j == k) ≡ false → find j (set k v d) ≡ find j d
find_set_other j k v d h = ground (arith, find-set j k v d)

default_IsGraph : IsGraph default_graph
unfolding normalize_graph
default_IsGraph = normalize_graph-IsGraph null default_graph refl

default_AreFlags : AreFlags default_flag_objectives
unfolding normalize_flags
default_AreFlags = normalize_flags-AreFlags null default_flag_objectives refl

attacker_state-HasKey :
    (v w : Value)
    → attacker_state v ≡ ok w
    → (d : Fields) × (w ≡ obj d) × HasKey "estimated_capabilities" d
unfolding attacker_state
attacker_state-HasKey (obj d) w h =
    (_, sym (ok_inj h), (_, find_set_same "estimated_capabilities" _ d))
attacker_state-HasKey null w h = cc
attacker_state-HasKey v w h = cc

migrate-IsState : (d state : Fields) → migrate d ≡ ok state → IsState state
unfolding migrate text_dec
migrate-IsState d state h =
    let (ns, hn, h₁) = bind-eq-ok (normalize_graph (get "capability_graph" d)) _ h in
    let (fs, hf, h₂) = bind-eq-ok (normalize_flags (get "flag_objectives" d)) _ h₁ in
    let (w, hw, h₃) =
      bind-eq-ok (attacker_state (present (find "attacker_state" d) (obj end))) _ h₂ in
    let (a, is, has) = attacker_state-HasKey _ w hw in
    let d₁ = set "schema_version" (str "2.0") d in
    let d₂ = set "capability_graph" (graph_value ns) d₁ in
    let d₃ = set "flag_objectives" (flags_value fs) d₂ in
    rw (← ok_inj h₃) (record {
      version =
          find_set_other "schema_version" "attacker_state" w d₃ refl
          ∙ find_set_other "schema_version" "flag_objectives" (flags_value fs) d₂ refl
          ∙ find_set_other "schema_version" "capability_graph" (graph_value ns) d₁ refl
          ∙ find_set_same "schema_version" (str "2.0") d;
      graph = (
        ns,
        find_set_other "capability_graph" "attacker_state" w d₃ refl
            ∙ find_set_other "capability_graph" "flag_objectives" (flags_value fs) d₂ refl
            ∙ find_set_same "capability_graph" (graph_value ns) d₁,
        normalize_graph-IsGraph _ ns hn,
      );
      flags = (
        fs,
        find_set_other "flag_objectives" "attacker_state" w d₃ refl
            ∙ find_set_same "flag_objectives" (flags_value fs) d₂,
        normalize_flags-AreFlags _ fs hf,
      );
      attacker = (a, find_set_same "attacker_state" w d₃ ∙ ap some is, has);
    })

module _ (text : Network → String) where
  pub default_state-IsState :
      (now later : String) (c : Config)
      → IsState (set "updated_at" (str later) (default_state text now c))
  unfolding default_state find set text_dec
  default_state-IsState now later c = record {
    version = refl;
    graph = (default_graph, refl, default_IsGraph);
    flags = (default_flag_objectives, refl, default_AreFlags);
    attacker = (_, refl, (_, refl));
  }

  save-IsState :
      (w : Write) (now : String) (c : Config) (old : StateFile) (state : Fields)
      → (save w now (default_state text now c) old).0 ≡ ok state
      → IsState state
  unfolding save
  save-IsState written now c old state h = rw (← ok_inj h) (default_state-IsState now now c)
  save-IsState write_fails now c old state h = cc

  recovers-IsState :
      (w : Write) (now : String) (c : Config) (old : StateFile) (e : Error) (state : Fields)
      → (recovers text w now c old e).0 ≡ ok state
      → IsState state
  recovers-IsState w now c old os_error state h = save-IsState w now c old state h
  recovers-IsState w now c old value_error state h = save-IsState w now c old state h
  recovers-IsState w now c old type_error state h = cc
  recovers-IsState w now c old e state h = cc

  read_state-IsState :
      (file : StateFile) (state : Fields) → read_state file ≡ ok state → IsState state
  read_state-IsState unreadable state h = cc
  read_state-IsState (document (obj d)) state h =
      let (u, hu, h₁) = bind-eq-ok (check_schema (get "schema_version" d)) _ h in
      migrate-IsState d state h₁
  read_state-IsState (document null) state h = cc
  read_state-IsState (document v) state h = cc

  recover-IsState :
      (w : Write) (now : String) (c : Config) (old : StateFile) (r : Result Fields) (state : Fields)
      → ((s : Fields) → r ≡ ok s → IsState s)
      → (recover text w now c old r).0 ≡ ok state
      → IsState state
  recover-IsState w now c old (ok s) state f h = rw (← ok_inj h) (f s refl)
  recover-IsState w now c old (raised e) state f h = recovers-IsState w now c old e state h

  -- Whatever the state file holds and whether writes succeed, if load returns a state then its
  -- schema version is 2.0, its capability graph is a well-formed one, its flag objectives are
  -- the three objectives, each with at most 100 distinct pieces of evidence and a time that is
  -- a text or not set, and its attacker state is a dict with the estimated capabilities.
  pub load-IsState :
      (w : Write) (now : String) (c : Config) (file : StateFile) (state : Fields)
      → (load text w now c file).0 ≡ ok state
      → IsState state
  unfolding load
  load-IsState w now c file state h =
      recover-IsState w now c file (read_state file) state (λ s e. read_state-IsState file s e) h

  default_state_again :
      (w : Write) (now later : String) (c : Config)
      → load text w later c (document (obj (set "updated_at" (str now) (default_state text now c))))
        ≡ (
          ok (set "updated_at" (str now) (default_state text now c)),
          document (obj (set "updated_at" (str now) (default_state text now c))),
        )
  unfolding load default_state set find text_dec migrate check_schema attacker_state normalize_graph
      graph_value node_value keyed known_get first_texts member truthy clamp scale normalize_flags
      flags_value flag_value hashable
  default_state_again w now later c = refl

  again_after :
      (w : Write) (now later : String) (c : Config) (file : StateFile) (r : Result Fields)
      → (r ≡ raised os_error) ⊎ (r ≡ raised value_error)
      → load text w later c (recover text written now c file r).1
        ≡ recover text written now c file r
  unfolding save
  again_after w now later c file r (inl e) = rw e (default_state_again w now later c)
  again_after w now later c file r (inr e) = rw e (default_state_again w now later c)

  -- If the state file cannot be read or is refused with a ValueError, and the default state is
  -- written in its place, then loading again, at any time and whether writes succeed or not,
  -- returns the same state and leaves the same file.
  pub load_again :
      (w : Write) (now later : String) (c : Config) (file : StateFile)
      → (read_state file ≡ raised os_error) ⊎ (read_state file ≡ raised value_error)
      → load text w later c (load text written now c file).1 ≡ load text written now c file
  unfolding load
  load_again w now later c file e = again_after w now later c file (read_state file) e
