-- ===== src/Netip.antt =====
-- `netip.Addr` of Go's standard library, as far as the program uses it: `ParseAddr`,
-- `IsMulticast`, `AsSlice` and `Compare` against 0.
use mathlib.Core.Path.{ap₂}
use mathlib.Core.Logic.{dite}
use k8slan.Base.{
  ℕ, zero, suc, ◌+◌, ◌-◌, ◌*◌, ◌/◌, ◌%◌, ap, Bool, true, false, ◌&&◌, ◌||◌, not, Option, none, some,
  List, [], ◌∷◌, ◌++◌, length, ltb, leb, if◌then◌else◌, Eq, ◌==◌, nat_eq, list_eq,
}
use k8slan.Base.Text.{Text}

-- The bytes of the address, and the zone of an IPv6 address.
pub data Addr : Type 0 where
  v4 : List ℕ → Addr
  v6 : List ℕ → Text → Addr

Addr-discrete : Discrete Addr
unfolding list_eq nat_eq
Addr-discrete (v4 a) (v4 b) = dite (list_eq.dec a b) (λ p. yes (ap v4 p)) (λ n. no (λ p. n (cc)))
Addr-discrete (v4 a) (v6 b z) = no (λ p. cc)
Addr-discrete (v6 a y) (v4 b) = no (λ p. cc)
Addr-discrete (v6 a y) (v6 b z) =
    dite (list_eq.dec a b)
      (λ p. dite (list_eq.dec y z) (λ q. yes (ap₂ v6 p q)) (λ n. no (λ r. n (cc))))
      (λ n. no (λ r. n (cc)))

-- `a.Compare(b) == 0` is `a == b`.
instance unfoldable pub addr_eq : Eq Addr
unfolding Addr-discrete
addr_eq = record { dec = Addr-discrete }

is_digit : ℕ → Bool
is_digit c = leb b'0' c && leb c b'9'

hex_digit : ℕ → Option ℕ
unfolding is_digit
hex_digit c =
    if is_digit c
    then some (c - b'0')
    else if leb b'a' c && leb c b'f'
    then some (c - b'a' + 10)
    else if leb b'A' c && leb c b'F'
    then some (c - b'A' + 10)
    else none

is_empty : Text → Bool
is_empty [] = true
is_empty (c ∷ s) = false

-- `parseIPv4Fields`: the octet so far, its digits, and the octets before it.
v4_fields : Text → ℕ → ℕ → List ℕ → Option (List ℕ)
unfolding is_digit is_empty nat_eq
v4_fields [] val digits fields = if length fields == 3 then some (fields ++ (val ∷ [])) else none
v4_fields (c ∷ s) val digits fields =
    let val' = val * 10 + (c - b'0') in
    let digit = v4_fields s val' (digits + 1) fields in
    let dot = v4_fields s 0 0 (fields ++ (val ∷ [])) in
    if is_digit c
    then if digits == 1 && val == 0 || ltb 255 val' then none else digit
    else if c == b'.'
    then if digits == 0 || is_empty s || length fields == 3 then none else dot
    else none

-- The hexadecimal digits that a text begins with: how many, their value, and what follows.
read_group : Text → ℕ → ℕ → Option (ℕ × ℕ × Text)
unfolding hex_digit
read_group [] off acc = some (off, acc, [])
read_group (c ∷ s) off acc = elim (hex_digit c) [
  | none ↦ some (off, acc, c ∷ s)
  | some d ↦ elim (ltb 3 off) [ true ↦ none | false ↦ read_group s (off + 1) (acc * 16 + d) ]
]

-- What `parseIPv6`'s loop has read: the bytes, where `::` stood, and the text left.
abbrev Groups : Type 0
Groups = List ℕ × Option ℕ × Text

is_set : Option ℕ → Bool
is_set none = false
is_set (some i) = true

-- A trailing IPv4 address, in place of the last two groups.
v6_tail : Text → List ℕ → Option ℕ → Option Groups
unfolding v4_fields is_set nat_eq
v6_tail s ip ellipsis =
    if not (is_set ellipsis) && not (length ip == 12) || ltb 16 (length ip + 4)
    then none
    else elim (v4_fields s 0 0 []) [ none ↦ none | some fs ↦ some (ip ++ fs, ellipsis, []) ]

-- Each round reads two bytes or more, so eight rounds of fuel reach `i == 16`.
v6_loop : ℕ → Text → List ℕ → Option ℕ → Option Groups
unfolding read_group v6_tail is_set is_empty nat_eq
v6_loop zero s ip ellipsis = some (ip, ellipsis, s)
v6_loop (suc fuel) s ip ellipsis = elim (leb 16 (length ip)) [
  | true ↦ some (ip, ellipsis, s)
  | false ↦ elim (read_group s 0 0) [
    | none ↦ none
    | some (zero, acc, rest) ↦ none
    | some (suc off, acc, []) ↦ some (ip ++ (acc / 256) ∷ (acc % 256) ∷ [], ellipsis, [])
    | some (suc off, acc, c ∷ []) ↦ if c == b'.' then v6_tail s ip ellipsis else none
    | some (suc off, acc, c ∷ d ∷ rest) ↦
        let ip' = ip ++ (acc / 256) ∷ (acc % 256) ∷ [] in
        let plain = v6_loop fuel (d ∷ rest) ip' ellipsis in
        let skip = v6_loop fuel rest ip' (some (length ip')) in
        let last : Option Groups = some (ip', some (length ip'), []) in
        if c == b'.'
        then v6_tail s ip ellipsis
        else if not (c == b':')
        then none
        else if not (d == b':')
        then plain
        else if is_set ellipsis
        then none
        else if is_empty rest
        then last
        else skip
  ]
]

zeros : ℕ → List ℕ
zeros zero = []
zeros (suc n) = 0 ∷ zeros n

-- The bytes with the gap at `::` filled.
expand : ℕ → ℕ → List ℕ → List ℕ
unfolding zeros
expand zero n ip = zeros n ++ ip
expand (suc e) n [] = zeros n
expand (suc e) n (b ∷ ip) = b ∷ expand e n ip

v6_finish : Text → Groups → Option Addr
unfolding expand
v6_finish zone (ip, ellipsis, c ∷ rest) = none
v6_finish zone (ip, none, []) = if ltb (length ip) 16 then none else some (v6 ip zone)
v6_finish zone (ip, some e, []) =
    if ltb (length ip) 16 then some (v6 (expand e (16 - length ip) ip) zone) else none

v6_groups : Text → Text → Option Addr
unfolding v6_loop v6_finish
v6_groups s zone = elim (v6_loop 8 s [] none) [ none ↦ none | some g ↦ v6_finish zone g ]

-- The body of `parseIPv6`, the zone split off.
parse_v6 : Text → Text → Option Addr
unfolding v6_loop v6_finish v6_groups zeros nat_eq
parse_v6 (a ∷ b ∷ s) zone =
    let from_start = v6_groups (a ∷ b ∷ s) zone in
    let after_gap : Option Addr = elim (v6_loop 8 s [] (some 0)) [
      | none ↦ none
      | some g ↦ v6_finish zone g
    ] in
    if a == b':' && b == b':'
    then if is_empty s then some (v6 (zeros 16) zone) else after_gap
    else from_start
parse_v6 s zone = v6_groups s zone

-- The text before the first `%`, and the zone behind it if there is one.
split_zone : Text → Text × Option Text
unfolding nat_eq
split_zone [] = ([], none)
split_zone (c ∷ s) =
    let (front, zone) = split_zone s in if c == b'%' then ([], some s) else (c ∷ front, zone)

parse_zoned : Text × Option Text → Option Addr
unfolding parse_v6
parse_zoned (s, none) = parse_v6 s []
parse_zoned (s, some []) = none
parse_zoned (s, some (c ∷ z)) = parse_v6 s (c ∷ z)

-- The first of `.`, `:` and `%` decides which parser runs.
parse_by_mark : Text → Text → Option Addr
unfolding v4_fields parse_zoned split_zone nat_eq
parse_by_mark whole [] = none
parse_by_mark whole (c ∷ s) =
    let more = parse_by_mark whole s in
    let four : Option Addr = elim (v4_fields whole 0 0 []) [
      | none ↦ none
      | some ip ↦ some (v4 ip)
    ] in
    let six = parse_zoned (split_zone whole) in
    if c == b'.' then four else if c == b':' then six else if c == b'%' then none else more

-- `netip.ParseAddr(s)`; `none` stands for the error.
unfoldable pub parse_addr : Text → Option Addr
unfolding parse_by_mark
parse_addr s = parse_by_mark s s

first_byte : List ℕ → ℕ
first_byte [] = 0
first_byte (b ∷ bs) = b

-- The IPv4 address that an IPv4-mapped IPv6 address stands for.
unmap : List ℕ → Option (List ℕ)
unfolding nat_eq list_eq
unmap (a ∷ b ∷ c ∷ d ∷ e ∷ f ∷ g ∷ h ∷ i ∷ j ∷ k ∷ l ∷ ip) =
    if (a ∷ b ∷ c ∷ d ∷ e ∷ f ∷ g ∷ h ∷ i ∷ j ∷ k ∷ l ∷ [])
      == 0 ∷ 0 ∷ 0 ∷ 0 ∷ 0 ∷ 0 ∷ 0 ∷ 0 ∷ 0 ∷ 0 ∷ 255 ∷ 255 ∷ []
    then some ip
    else none
unmap ip = none

is_multicast_v4 : List ℕ → Bool
unfolding first_byte nat_eq
is_multicast_v4 ip = first_byte ip / 16 == 14

-- `addr.IsMulticast()`: 224.0.0.0/4, also IPv4-mapped, and ff00::/8.
unfoldable pub is_multicast : Addr → Bool
unfolding is_multicast_v4 unmap first_byte nat_eq
is_multicast (v4 ip) = is_multicast_v4 ip
is_multicast (v6 ip zone) = elim (unmap ip) [
  | none ↦ first_byte ip == 255
  | some ip' ↦ is_multicast_v4 ip'
]

-- `addr.AsSlice()`: the bytes, without the zone
unfoldable pub as_slice : Addr → List ℕ
as_slice (v4 ip) = ip
as_slice (v6 ip zone) = ip
