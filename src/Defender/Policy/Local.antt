-- ===== src/Defender/Policy/Local.antt =====
-- Which addresses are never blocked, and which may be.
use k3df.Base.{
  sym, ◌∙◌, ap, ℕ, ◌/◌, ◌^◌, ◌≡◌, ◌⊎◌, refl, Bool, false, ◌||◌, some, List, [], ◌∷◌, ◌++◌, any, All,
  arith,
}
use k3df.Base.Int.{ℤ, pos, ◌≤ℤ◌}
use k3df.Json.{int, str, obj, Fields, get, get_or}
use k3df.Defender.Address.{Address, v4, v6, Network, net4, net6, ip_address, in_network}
use k3df.Defender.Config.{Config}
use k3df.Defender.Policy.{protected_networks, is_protected, int_of, validate_scenario}
use k3df.Defender.Policy.Allowed.{blocks, Blockable-of_answer, answer_of_Blockable}

-- Every address of the given networks is refused, in numbers.
any-append : (p : Network → Bool) (xs ys : List Network) → any p (xs ++ ys) ≡ (any p xs || any p ys)
any-append p [] ys = refl
any-append p (x ∷ xs) ys = ground (arith, any-append p xs ys)

-- The IPv4 addresses of loopback and of the three private networks, by their first bits.
abbrev pub IsLocal : ℕ → Type 0
IsLocal n = (n / 2 ^ 24 ≡ 127) ⊎ (n / 2 ^ 24 ≡ 10) ⊎ (n / 2 ^ 20 ≡ 2753) ⊎ (n / 2 ^ 16 ≡ 49320)

not_protected :
    (a : Address) (c : Config)
    → is_protected a c ≡ false
    → (any (in_network a) protected_networks ≡ false)
      × (any (in_network a) c.ignore_networks ≡ false)
      × (any (in_network a) c.allow_networks ≡ false)
unfolding is_protected
not_protected a c h = ground (
  arith,
  any-append (in_network a) protected_networks (c.ignore_networks ++ c.allow_networks),
  any-append (in_network a) c.ignore_networks c.allow_networks,
)

not-IsLocal : (n : ℕ) → any (in_network (v4 n)) protected_networks ≡ false → ¬ IsLocal n
unfolding in_network
not-IsLocal n h = λ l. ground arith

some_inj : {A : Type 0} {a b : A} → some a ≡ some b → a ≡ b
some_inj h = cc

obj_inj : (d e : Fields) → obj d ≡ obj e → d ≡ e
obj_inj d e h = cc

-- If the policy allows a block of an IPv4 address, the address is not in 127.0.0.0/8, 10.0.0.0/8,
-- 172.16.0.0/12 or 192.168.0.0/16, and in no ignored or allowed network of the configuration.
pub blocks_not-IsLocal :
    (scenario action : Fields) (n : ℕ) (c : Config)
    → validate_scenario (obj scenario) c ≡ blocks
    → get "action" scenario ≡ obj action
    → ip_address (get_or "ip" (str "") action) ≡ some (v4 n)
    → (¬ IsLocal n)
      × (any (in_network (v4 n)) c.ignore_networks ≡ false)
      × (any (in_network (v4 n)) c.allow_networks ≡ false)
blocks_not-IsLocal scenario action n c h ea eip =
    let (sc, act, a, d, es, ea', et, eip', free, ed, lo, hi) =
      Blockable-of_answer (obj scenario) c h in
    let same : act ≡ action =
      obj_inj act action (sym ea' ∙ ap (get "action") (sym (obj_inj scenario sc es)) ∙ ea) in
    let ea : some a ≡ some (v4 n) =
      sym eip' ∙ ap (λ x. ip_address (get_or "ip" (str "") x)) same ∙ eip in
    let free' : is_protected (v4 n) c ≡ false = rw (← some_inj ea) free in
    let (p, i, w) = not_protected (v4 n) c free' in (not-IsLocal n p, i, w)

-- An IPv6 address is protected by IPv6 networks alone.
abbrev pub IsV4 : Network → Type 0
IsV4 (net4 _ _) = Unit
IsV4 (net6 _ _) = ⊥

any_v6 : (n : ℕ) (nets : List Network) → All IsV4 nets → any (in_network (v6 n)) nets ≡ false
unfolding in_network
any_v6 n [] h = refl
any_v6 n (net4 b p ∷ nets) h = any_v6 n nets h.1
any_v6 n (net6 b p ∷ nets) h = absurd h.0

v6_unprotected :
    (n : ℕ) (c : Config)
    → All IsV4 c.ignore_networks
    → All IsV4 c.allow_networks
    → is_protected (v6 n) c ≡ false
unfolding is_protected
v6_unprotected n c h k = ground (
  arith,
  any-append (in_network (v6 n)) protected_networks (c.ignore_networks ++ c.allow_networks),
  any-append (in_network (v6 n)) c.ignore_networks c.allow_networks,
  any_v6 n protected_networks (tt, (tt, (tt, (tt, tt)))),
  any_v6 n c.ignore_networks h,
  any_v6 n c.allow_networks k,
)

-- If the configuration names IPv4 networks only, the policy allows a block of every IPv6 address,
-- the loopback and the mapped IPv4 addresses included, with a duration of 1 to 3600 seconds.
pub v6_blocks :
    (scenario action : Fields) (n : ℕ) (d : ℤ) (c : Config)
    → All IsV4 c.ignore_networks
    → All IsV4 c.allow_networks
    → get "action" scenario ≡ obj action
    → get "type" action ≡ str "block_ip"
    → ip_address (get_or "ip" (str "") action) ≡ some (v6 n)
    → int_of (get_or "duration_sec" (int (pos 300)) action) ≡ some d
    → pos 1 ≤ℤ d
    → d ≤ℤ pos 3600
    → validate_scenario (obj scenario) c ≡ blocks
v6_blocks scenario action n d c h k ea et eip ed lo hi =
    answer_of_Blockable (obj scenario) c
      (scenario, action, v6 n, d, refl, ea, et, eip, v6_unprotected n c h k, ed, lo, hi)
