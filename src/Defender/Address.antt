-- ===== src/Defender/Address.antt =====
-- What the sources use of the standard library's `ipaddress` (Python 3.11): `ip_address`,
-- `ip_network(text, strict=False)` and `address in network`.
use k3df.Base.{
  ℕ, zero, suc, ◌+◌, ◌-◌, ◌*◌, ◌/◌, ◌^◌, Bool, true, false, not, ◌&&◌, String, Option, none, some,
  List, [], ◌∷◌, ◌≡◌, refl, length, take, all, any, codes, ltb, leb, eqb, if◌then◌else◌,
}
use k3df.Base.Int.{ℤ, pos, negsuc}
use k3df.Json.{Value, bool, int, str, bool_int}
use k3df.Text.{is_digit, split}

pub data Address : Type 0 where
  v4 v6 : ℕ → Address

-- The network's address and the length of its prefix.
pub data Network : Type 0 where
  net4 net6 : ℕ → ℕ → Network

infixl 5 ◌>>=◌
abbrev ◌>>=◌ : {A B : Type 0} → Option A → (A → Option B) → Option B
none >>= f = none
some a >>= f = f a

abbrev when : Bool → Option (Unit {0})
when true = some tt
when false = none

-- `int(digits)`
abbrev pub decimal : ℕ → List ℕ → ℕ
decimal acc [] = acc
decimal acc (c ∷ cs) = decimal (acc * 10 + (c - b'0')) cs

-- `_parse_octet`: one to three digits with no leading zero, at most 255.
abbrev leading_zero : List ℕ → Bool
leading_zero (c ∷ d ∷ cs) = eqb c b'0'
leading_zero _ = false

octet : List ℕ → Option ℕ
octet cs =
    if leb 1 (length cs)
      && leb (length cs) 3
      && all is_digit cs
      && not (leading_zero cs)
      && leb (decimal 0 cs) 255
    then some (decimal 0 cs)
    else none

-- Four octets between dots.
unfoldable pub parse_v4 : List ℕ → Option ℕ
unfolding octet
parse_v4 cs = elim (split b'.' cs) [
  | a ∷ b ∷ c ∷ d ∷ [] ↦ do
    i ← octet a
    j ← octet b
    k ← octet c
    l ← octet d
    some (((i * 256 + j) * 256 + k) * 256 + l)
  | _ ↦ none
]

-- A part between colons: its text, or a number read from an embedded IPv4 address.
pub data Part : Type 0 where
  raw : List ℕ → Part
  known : ℕ → Part

abbrev is_empty : Part → Bool
is_empty (raw []) = true
is_empty _ = false

hex_digit : ℕ → Option ℕ
hex_digit c =
    if is_digit c
    then some (c - b'0')
    else if leb b'a' c && leb c b'f'
    then some (c - b'a' + 10)
    else if leb b'A' c && leb c b'F'
    then some (c - b'A' + 10)
    else none

hexadecimal : ℕ → List ℕ → Option ℕ
hexadecimal acc [] = some acc
hexadecimal acc (c ∷ cs) = hex_digit c >>= λ d. hexadecimal (acc * 16 + d) cs

-- `_parse_hextet`
hextet : Part → Option ℕ
hextet (known n) = some n
hextet (raw []) = none
hextet (raw (c ∷ cs)) = if leb (length (c ∷ cs)) 4 then hexadecimal 0 (c ∷ cs) else none

hextets : ℕ → List Part → Option ℕ
hextets acc [] = some acc
hextets acc (p ∷ ps) = hextet p >>= λ h. hextets (acc * 65536 + h) ps

-- The parts, the last of which may be an IPv4 address that stands for two.
expand : List (List ℕ) → Option (List Part)
expand [] = some []
expand (p ∷ []) =
    if any (λ c. eqb c b'.') p
    then (parse_v4 p >>= λ n. some (known (n / 65536) ∷ known (n - n / 65536 * 65536) ∷ []))
    else some (raw p ∷ [])
expand (p ∷ q ∷ ps) = expand (q ∷ ps) >>= λ rest. some (raw p ∷ rest)

-- The indices of the empty parts that are neither first nor last.
skips : ℕ → List Part → List ℕ
skips i (p ∷ q ∷ ps) =
    let rest = skips (suc i) (q ∷ ps) in if leb 1 i && is_empty p then i ∷ rest else rest
skips i _ = []

abbrev first_empty : List Part → Bool
first_empty [] = false
first_empty (p ∷ ps) = is_empty p

abbrev last_empty : List Part → Bool
last_empty [] = false
last_empty (p ∷ []) = is_empty p
last_empty (p ∷ q ∷ ps) = last_empty (q ∷ ps)

abbrev drop : ℕ → List Part → List Part
drop zero ps = ps
drop (suc n) [] = []
drop (suc n) (p ∷ ps) = drop n ps

-- With `::` at index `i`: how many parts stand before and after it. An empty first or last part
-- must belong to the `::`.
abbrev side : Bool → ℕ → Option ℕ
side true n = if eqb n 1 then some 0 else none
side false n = some n

assemble : List Part → List ℕ → Option ℕ
assemble ps [] = if eqb (length ps) 8 then hextets 0 ps else none
assemble ps (i ∷ []) = do
  hi ← side (first_empty ps) i
  lo ← side (last_empty ps) (length ps - i - 1)
  _ ← when (leb (hi + lo) 7)
  high ← hextets 0 (take hi ps)
  hextets (high * 65536 ^ (8 - (hi + lo))) (drop (length ps - lo) ps)
assemble ps _ = none

-- `_ip_int_from_string` on the text before the scope id.
parse_parts : List Part → Option ℕ
unfolding assemble skips
parse_parts ps = if leb (length ps) 9 then assemble ps (skips 0 ps) else none

abbrev scoped : List (List ℕ) → Option (List ℕ)
scoped (addr ∷ []) = some addr
scoped (addr ∷ (c ∷ cs) ∷ []) = some addr
scoped _ = none

unfoldable pub parse_v6 : List ℕ → Option ℕ
unfolding parse_parts expand hextets hextet hexadecimal hex_digit parse_v4
parse_v6 cs = do
  _ ← when (not (any (λ c. eqb c b'/') cs))
  addr ← scoped (split b'%' cs)
  _ ← when (leb 3 (length (split b':' addr)))
  parts ← expand (split b':' addr)
  parse_parts parts

abbrev or_else : {A : Type 0} → Option A → Option A → Option A
or_else none y = y
or_else (some a) y = some a

abbrev number_address : ℤ → Option Address
number_address (negsuc _) = none
number_address (pos n) =
    if ltb n (2 ^ 32) then some (v4 n) else if ltb n (2 ^ 128) then some (v6 n) else none

unfoldable pub address_of_text : String → Option Address
unfolding parse_v6
address_of_text s =
    or_else (parse_v4 (codes s) >>= λ n. some (v4 n)) (parse_v6 (codes s) >>= λ n. some (v6 n))

-- `ipaddress.ip_address(value)`; `none` is its `ValueError`. A number is an address too. Any other
-- value goes through `str`, which gives no address.
unfoldable pub ip_address : Value → Option Address
ip_address (str s) = address_of_text s
ip_address (int n) = number_address n
ip_address (bool b) = number_address (bool_int b)
ip_address _ = none

-- `address in network`: the versions agree, and so do the first bits.
unfoldable pub in_network : Address → Network → Bool
in_network (v4 a) (net4 base n) = eqb (a / 2 ^ (32 - n)) (base / 2 ^ (32 - n))
in_network (v6 a) (net6 base n) = eqb (a / 2 ^ (128 - n)) (base / 2 ^ (128 - n))
in_network _ _ = false

pub ip_address_empty : ip_address (str "") ≡ none
unfolding ip_address address_of_text parse_v4 parse_v6 split
ip_address_empty = refl
