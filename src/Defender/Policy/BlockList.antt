-- ===== src/Defender/Policy/BlockList.antt =====
-- The block list as a map from addresses to expiry times.
use k3df.Base.{
  ℕ, ◌+◌, ◌*◌, ◌/◌, ◌≤◌, ◌≡◌, inl, inr, refl, ◌∙◌, ap, Bool, true, false, ◌||◌, String, Option,
  none, some, List, [], ◌∷◌, any, ltb, arith, if◌then◌else◌, ◌==◌, text_dec, Bool-cases,
}
use k3df.Json.{Value, str, value_eq}
use k3df.Defender.Policy.{BlockRecord, block_ip, unexpired, active_block, replace_first}

abbrev pub lists : Value → List BlockRecord → Bool
lists ip bs = any (λ b. value_eq b.ip ip) bs

-- The addresses are texts, and none stands twice.
abbrev pub IsBlockList : List BlockRecord → Type 0
IsBlockList [] = Unit
IsBlockList (b ∷ bs) = (s : String) × (b.ip ≡ str s) × (lists (str s) bs ≡ false) × IsBlockList bs

-- The expiry of the entry of a text.
abbrev pub expiry : String → List BlockRecord → Option ℕ
expiry s [] = none
expiry s (b ∷ bs) = if value_eq b.ip (str s) then some b.expires_at else expiry s bs

abbrev pub in_force : ℕ → Option ℕ → Bool
in_force now none = false
in_force now (some e) = ltb now (e * 1_000_000)

value_eq-str : (a b : String) → value_eq (str a) (str b) ≡ (a == b)
unfolding value_eq
value_eq-str a b = refl

lists-unexpired :
    (now : ℕ) (ip : Value) (bs : List BlockRecord)
    → lists ip bs ≡ false
    → lists ip (unexpired now bs) ≡ false
unfolding unexpired
lists-unexpired now ip [] h = h
lists-unexpired now ip (b ∷ bs) h = ground (arith, lists-unexpired now ip bs)

expiry-none : (s : String) (bs : List BlockRecord) → lists (str s) bs ≡ false → expiry s bs ≡ none
expiry-none s [] h = refl
expiry-none s (b ∷ bs) h = ground (arith, expiry-none s bs)

entry-eq : (b : BlockRecord) (t s : String) → b.ip ≡ str t → value_eq b.ip (str s) ≡ (t == s)
entry-eq b t s e = ap (λ ip. value_eq ip (str s)) e ∙ value_eq-str t s

pair-eq :
    (b r : BlockRecord) (u t : String) → b.ip ≡ str u → r.ip ≡ str t → value_eq b.ip r.ip ≡ (u == t)
pair-eq b r u t eb er = ap (value_eq b.ip) er ∙ entry-eq b u t eb

lists_self :
    (t s : String) (bs : List BlockRecord)
    → t ≡ s
    → lists (str t) bs ≡ false
    → lists (str s) bs ≡ false
lists_self t s bs p h = rw p at h

lists-expiry :
    (now : ℕ) (bs : List BlockRecord) (s : String)
    → IsBlockList bs
    → lists (str s) (unexpired now bs) ≡ in_force now (expiry s bs)
unfolding unexpired
lists-expiry now [] s v = refl
lists-expiry now (b ∷ bs) s (t, e, fresh, v) = ground (
  arith,
  entry-eq b t s e,
  lists_self t s bs,
  lists-unexpired now (str s) bs,
  expiry-none s bs,
  lists-expiry now bs s v,
)

-- The answer of a sweep is the map read at the address.
pub active_block-expiry :
    (now : ℕ) (bs : List BlockRecord) (s : String)
    → IsBlockList bs
    → (active_block now bs (str s)).1 ≡ in_force now (expiry s bs)
unfolding active_block
active_block-expiry now bs s v = lists-expiry now bs s v

lists-replace_first :
    (r : BlockRecord) (t s : String) (bs : List BlockRecord)
    → r.ip ≡ str t
    → IsBlockList bs
    → lists (str s) (replace_first r bs) ≡ (t == s || lists (str s) bs)
lists-replace_first r t s [] e v = ground (arith, entry-eq r t s e)
lists-replace_first r t s (b ∷ bs) e (u, eb, fresh, v) = ground (
  arith,
  pair-eq b r u t eb e,
  entry-eq r t s e,
  entry-eq b u s eb,
  lists-replace_first r t s bs e v,
)

expiry-replace_first :
    (r : BlockRecord) (t s : String) (bs : List BlockRecord)
    → r.ip ≡ str t
    → IsBlockList bs
    → expiry s (replace_first r bs) ≡ (if t == s then some r.expires_at else expiry s bs)
expiry-replace_first r t s [] e v = ground (arith, entry-eq r t s e)
expiry-replace_first r t s (b ∷ bs) e (u, eb, fresh, v) = ground (
  arith,
  pair-eq b r u t eb e,
  entry-eq r t s e,
  entry-eq b u s eb,
  expiry-replace_first r t s bs e v,
)

replace_first-IsBlockList :
    (r : BlockRecord) (t : String) (bs : List BlockRecord)
    → r.ip ≡ str t
    → IsBlockList bs
    → IsBlockList (replace_first r bs)
replace_first-IsBlockList r t [] e v = (t, e, refl, tt)
replace_first-IsBlockList r t (b ∷ bs) e (u, eb, fresh, v) = elim (text_dec u t) [
  | yes p ↦
      let same : value_eq b.ip r.ip ≡ true = ground (arith, pair-eq b r u t eb e) in
      rw same (t, e, lists_self u t bs p fresh, v)
  | no p ↦
      let differ : value_eq b.ip r.ip ≡ false = ground (arith, pair-eq b r u t eb e) in
      rw differ (
        u,
        eb,
        ground (arith, lists-replace_first r t u bs e v),
        replace_first-IsBlockList r t bs e v,
      )
]

unexpired-IsBlockList :
    (now : ℕ) (bs : List BlockRecord) → IsBlockList bs → IsBlockList (unexpired now bs)
unfolding unexpired
unexpired-IsBlockList now [] v = tt
unexpired-IsBlockList now (b ∷ bs) (u, eb, fresh, v) =
    elim (Bool-cases (ltb now (b.expires_at * 1_000_000))) [
      | inl stays ↦
          rw stays (u, eb, lists-unexpired now (str u) bs fresh, unexpired-IsBlockList now bs v)
      | inr gone ↦ rw gone (unexpired-IsBlockList now bs v)
    ]

-- At a block list of distinct texts, after blocking the text address t for d seconds, the sweep
-- at any later time answers for t whether that time is before the second of the block plus d, and
-- for any other text what it would have answered without the block.
pub active_block-block_ip :
    (now later d : ℕ) (t s : String) (reason : Value) (bs : List BlockRecord)
    → IsBlockList bs
    → (active_block later (block_ip now bs (str t) d reason).0 (str s)).1 ≡ (
        if t == s
        then ltb later ((now / 1_000_000 + d) * 1_000_000)
        else (active_block later bs (str s)).1)
unfolding block_ip
active_block-block_ip now later d t s reason bs v =
    let r : BlockRecord = record {
      ip = str t;
      expires_at = now / 1_000_000 + d;
      reason = reason;
    } in
    ground (
      arith,
      active_block-expiry later (replace_first r bs) s (replace_first-IsBlockList r t bs refl v),
      active_block-expiry later bs s v,
      expiry-replace_first r t s bs refl v,
    )

-- The two operations keep a block list one.
pub block_ip-IsBlockList :
    (now d : ℕ) (t : String) (reason : Value) (bs : List BlockRecord)
    → IsBlockList bs
    → IsBlockList (block_ip now bs (str t) d reason).0
unfolding block_ip
block_ip-IsBlockList now d t reason bs v = replace_first-IsBlockList _ t bs refl v

pub active_block-IsBlockList :
    (now : ℕ) (bs : List BlockRecord) (ip : Value)
    → IsBlockList bs
    → IsBlockList (active_block now bs ip).0
unfolding active_block
active_block-IsBlockList now bs ip v = unexpired-IsBlockList now bs v

lists-unexpired_later :
    (now later : ℕ) (s : String) (bs : List BlockRecord)
    → now ≤ later
    → lists (str s) (unexpired later (unexpired now bs)) ≡ lists (str s) (unexpired later bs)
unfolding unexpired
lists-unexpired_later now later s [] h = refl
lists-unexpired_later now later s (b ∷ bs) h =
    ground (arith, lists-unexpired_later now later s bs h)

-- An earlier sweep does not change a later answer.
pub active_block_swept :
    (now later : ℕ) (swept : Value) (s : String) (bs : List BlockRecord)
    → now ≤ later
    → (active_block later (active_block now bs swept).0 (str s)).1
      ≡ (active_block later bs (str s)).1
unfolding active_block
active_block_swept now later swept s bs h = lists-unexpired_later now later s bs h
