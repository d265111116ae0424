-- ===== src/System/Addresses.antt =====
-- `Local` of src/library/ip/ip.go. An IP is its bytes, four or sixteen of them; the methods of `net.IP`
-- are those of Go's library. What the system answers about its interfaces is an argument.
use wing_binlog_go.Prelude.{
  ◌≡◌, ◌≢◌, refl, ap, Bool, false, not, ◌&&◌, ◌||◌, ◌⊎◌, inl, inr, Option, none, some, List, [],
  ◌∷◌, ◌++◌, Bytes, text, decimal, bytes_eq, length, take, drop, ◌==◌, if◌then◌else◌, arith,
  Bool-cases,
}

-- The first twelve bytes of an IPv4 address in sixteen.
abbrev v4_prefix : Bytes
v4_prefix = 0 ∷ 0 ∷ 0 ∷ 0 ∷ 0 ∷ 0 ∷ 0 ∷ 0 ∷ 0 ∷ 0 ∷ 255 ∷ 255 ∷ []

abbrev v6_loopback : Bytes
v6_loopback = 0 ∷ 0 ∷ 0 ∷ 0 ∷ 0 ∷ 0 ∷ 0 ∷ 0 ∷ 0 ∷ 0 ∷ 0 ∷ 0 ∷ 0 ∷ 0 ∷ 0 ∷ 1 ∷ []

-- `To4`
unfoldable pub to4 : Bytes → Option Bytes
to4 ip =
    if length ip == 4
    then some ip
    else if (length ip == 16) && bytes_eq (take 12 ip) v4_prefix
    then some (drop 12 ip)
    else none

unfoldable pub begins_with_127 : Bytes → Bool
begins_with_127 [] = false
begins_with_127 (b ∷ s) = b == 127

-- `IsLoopback`
unfoldable pub is_loopback : Bytes → Bool
unfolding to4 begins_with_127
is_loopback ip = elim (to4 ip) [ none ↦ bytes_eq ip v6_loopback | some v4 ↦ begins_with_127 v4 ]

-- `String` of four bytes.
unfoldable pub dotted : Bytes → Bytes
dotted [] = []
dotted (b ∷ []) = decimal b
dotted (b ∷ c ∷ s) = decimal b ++ (text "." ++ dotted (c ∷ s))

-- `net.Addr`, by the cases of the switch; the IP may be nil.
pub data Addr : Type 0 where
  ip_net : Option Bytes → Addr
  ip_addr : Option Bytes → Addr
  other_addr : Addr

-- `net.Interface`; `addrs` is the answer of `Addrs`, `none` its error.
pub record Interface : Type 0 where
  pub is_up : Bool
  pub loopback : Bool
  pub addrs : Option (List Addr)

pub data Found : Type 0 where
  address : Bytes → Found
  failed : Found
  not_connected : Found

-- The switch: another type leaves the variable `ip` as it was.
unfoldable pub assigned : Addr → Option Bytes → Option Bytes
assigned (ip_net new) ip = new
assigned (ip_addr new) ip = new
assigned other_addr ip = ip

-- The rest of one round: the result, and `ip` for the next round.
unfoldable pub usable : Option Bytes → Option Bytes × Option Bytes
unfolding to4 is_loopback
usable none = (none, none)
usable (some ip) = if is_loopback ip then (none, some ip) else (to4 ip, to4 ip)

-- A round ends the loops with what it found, or goes on.
unfoldable pub or_more {ℓ} : {A : Type ℓ} → Option Bytes → (Bytes → A) → A → A
or_more none done more = more
or_more (some v4) done more = done v4

unfoldable pub addr_loop : List Addr → Option Bytes → Option Bytes × Option Bytes
unfolding assigned usable or_more
addr_loop [] ip = (none, ip)
addr_loop (a ∷ rest) ip =
    let (found, next) = usable (assigned a ip) in
    or_more found (λ v4. (some v4, next)) (addr_loop rest next)

-- One interface of which the addresses are asked, and the loop behind it.
unfoldable pub ask : Option (List Addr) → Option Bytes → (Option Bytes → Found) → Found
unfolding addr_loop or_more dotted
ask none ip loop = failed
ask (some addrs) ip loop =
    let (found, next) = addr_loop addrs ip in or_more found (λ v4. address (dotted v4)) (loop next)

unfoldable pub interface_loop : List Interface → Option Bytes → Found
unfolding ask
interface_loop [] ip = not_connected
interface_loop (i ∷ rest) ip =
    if not i.is_up || i.loopback
    then interface_loop rest ip
    else ask i.addrs ip (λ next. interface_loop rest next)

-- `Local`, with the answer of `net.Interfaces`.
unfoldable pub local : Option (List Interface) → Found
unfolding interface_loop
local answer = elim answer [ none ↦ failed | some interfaces ↦ interface_loop interfaces none ]

-- An address of its own that is IPv4 and no loopback.
pub own_v4 : Addr → Option Bytes
own_v4 a = (usable (assigned a none)).0

pub first_v4 : List Addr → Option Bytes
unfolding or_more
first_v4 [] = none
first_v4 (a ∷ rest) = or_more (own_v4 a) some (first_v4 rest)

ask_first : Option (List Addr) → Found → Found
unfolding or_more first_v4
ask_first none later = failed
ask_first (some addrs) later = or_more (first_v4 addrs) (λ v4. address (dotted v4)) later

-- The first IPv4 address of an interface that is up and no loopback, if no interface before it fails.
pub first_address : List Interface → Found
unfolding ask_first
first_address [] = not_connected
first_address (i ∷ rest) =
    let later = first_address rest in
    if not i.is_up || i.loopback then later else ask_first i.addrs later

-- What the variable `ip` can hold between two rounds: nothing that a round could answer.
IsStale : Option Bytes → Type 0
IsStale ip = (usable ip).0 ≡ none

usable-IsStale : (ip : Option Bytes) → (usable ip).0 ≡ none → IsStale (usable ip).1
unfolding IsStale usable
usable-IsStale none h = refl
usable-IsStale (some ip) h = elim (Bool-cases (is_loopback ip)) [
  | inl local_only ↦ rw (local_only, local_only) refl
  | inr other ↦ let gone : to4 ip ≡ none = ground arith in rw (other, gone) refl
]

round-own : (a : Addr) (ip : Option Bytes) → IsStale ip → (usable (assigned a ip)).0 ≡ own_v4 a
unfolding IsStale assigned own_v4 usable
round-own (ip_net new) ip stale = refl
round-own (ip_addr new) ip stale = refl
round-own other_addr ip stale = stale

-- A round that finds nothing leaves a stale variable.
record Agrees (found : Option Bytes × Option Bytes) (first : Option Bytes) : Type 0 where
  same : found.0 ≡ first
  stale : (found.0 ≢ none) ⊎ IsStale found.1

or_more-Agrees :
    (r : Option Bytes × Option Bytes) (own : Option Bytes) (rest : List Addr)
    → r.0 ≡ own
    → (IsStale r.1 → Agrees (addr_loop rest r.1) (first_v4 rest))
    → (r.0 ≡ none → IsStale r.1)
    → Agrees
        (or_more r.0 (λ v4. (some v4, r.1)) (addr_loop rest r.1))
        (or_more own some (first_v4 rest))
unfolding or_more
or_more-Agrees (none, next) none rest e later stale = later (stale refl)
or_more-Agrees (none, next) (some v4) rest e later stale = cc
or_more-Agrees (some v4, next) none rest e later stale = cc
or_more-Agrees (some v4, next) (some own) rest e later stale = record {
  same = e;
  stale = inl (λ z. cc);
}

addr_loop-first :
    (addrs : List Addr) (ip : Option Bytes)
    → IsStale ip
    → Agrees (addr_loop addrs ip) (first_v4 addrs)
unfolding addr_loop first_v4
addr_loop-first [] ip stale = record { same = refl; stale = inr stale }
addr_loop-first (a ∷ rest) ip stale =
    or_more-Agrees (usable (assigned a ip)) (own_v4 a) rest (round-own a ip stale)
      (addr_loop-first rest (usable (assigned a ip)).1) (usable-IsStale (assigned a ip))

found-first :
    (r : Option Bytes × Option Bytes) (first : Option Bytes) (loop : Option Bytes → Found)
    (later : Found)
    → Agrees r first
    → ((next : Option Bytes) → IsStale next → loop next ≡ later)
    → or_more r.0 (λ v4. address (dotted v4)) (loop r.1)
      ≡ or_more first (λ v4. address (dotted v4)) later
unfolding or_more
found-first (none, next) none loop later a h = elim a.stale [
  | inl full ↦ absurd (full refl)
  | inr stale ↦ h next stale
]
found-first (none, next) (some v4) loop later a h = cc (a.same)
found-first (some v4, next) none loop later a h = cc (a.same)
found-first (some v4, next) (some own) loop later a h =
    ap (λ f. or_more f (λ v. address (dotted v)) later) a.same

ask-first :
    (addrs : Option (List Addr)) (ip : Option Bytes) (loop : Option Bytes → Found) (later : Found)
    → IsStale ip
    → ((next : Option Bytes) → IsStale next → loop next ≡ later)
    → ask addrs ip loop ≡ ask_first addrs later
unfolding ask ask_first
ask-first none ip loop later stale h = refl
ask-first (some addrs) ip loop later stale h =
    found-first (addr_loop addrs ip) (first_v4 addrs) loop later (addr_loop-first addrs ip stale) h

interface_loop-first :
    (interfaces : List Interface) (ip : Option Bytes)
    → IsStale ip
    → interface_loop interfaces ip ≡ first_address interfaces
unfolding interface_loop first_address
interface_loop-first [] ip stale = refl
interface_loop-first (i ∷ rest) ip stale = elim (Bool-cases (not i.is_up || i.loopback)) [
  | inl skip ↦ rw (skip, first_address) (interface_loop-first rest ip stale)
  | inr asked ↦
      rw (asked, first_address)
        (ask-first i.addrs ip (interface_loop rest) (first_address rest) stale
          (λ next s. interface_loop-first rest next s))
]

-- `Local` answers the first IPv4 address, not of the loopback, of an interface that is up and no
-- loopback; an interface before it that does not tell its addresses is an error. That the variable
-- `ip` keeps its value from one address and one interface to the next changes nothing.
pub local-first_address :
    (interfaces : List Interface) → local (some interfaces) ≡ first_address interfaces
unfolding local
local-first_address interfaces =
    interface_loop-first interfaces none (unfold IsStale usable in refl)
