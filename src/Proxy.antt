-- ===== src/Proxy.antt =====
-- The proxy of core services: pkg/proxy.go and the resolver of pkg/local_resolver.go, which looks
-- the address of a host up in a file of lines.
pub mod Waiting
use Prim.Native.Char.{Char, code}
use faasd.Prelude.{
  ℕ, suc, ◌+◌, ◌-◌, ◌*◌, ◌%◌, ◌^◌, ltb, leb, String, ◌<>◌, ◌==◌, ◌==ᶜ◌, Bool, true, false, ◌&&◌,
  ◌||◌, not, Option, none, some, List, [], ◌∷◌, Map, lookup, insert, get_or, if◌then◌else◌, split,
  decimal, after_char,
}
use faasd.Effects.{Outcome, return, panic, blocked, Result, ok, err, failed}

-- The text before and after the first occurrence of the character.
unfoldable pub cut : Char → String → Option (String × String)
cut d String.[] = none
cut d (String.◌∷◌ c s) =
    let rest = cut d s in if c ==ᶜ d then some (String.[], s) else after_char c rest

-- A number of decimal digits, which must not be empty.
abbrev pub digit_value : Char → Option ℕ
digit_value c = if leb 48 (code c) && leb (code c) 57 then some (code c - 48) else none

unfoldable pub digits_value : ℕ → String → Option ℕ
digits_value n String.[] = some n
digits_value n (String.◌∷◌ c s) = elim (digit_value c) [
  | none ↦ none
  | some d ↦ digits_value (n * 10 + d) s
]

abbrev pub number : String → Option ℕ
number s = if s == "" then none else digits_value 0 s

abbrev pub below : ℕ → Option ℕ → Option ℕ
below bound none = none
below bound (some n) = if ltb n bound then some n else none

abbrev pub negated : Option ℕ → Option ℕ
negated none = none
negated (some n) = some ((2 ^ 32 - n) % 2 ^ 32)

-- uint32 of strconv.ParseInt(s, 10, 32), which reads a sign and bounds the number to 32 bits.
unfoldable pub parse_port : String → Option ℕ
unfolding digits_value
parse_port String.[] = none
parse_port (String.◌∷◌ c s) =
    if c ==ᶜ "-"
    then negated (below (2 ^ 31 + 1) (number s))
    else if c ==ᶜ "+"
    then below (2 ^ 31) (number s)
    else below (2 ^ 31) (number (String.◌∷◌ c s))

abbrev pub with_port : String → Option ℕ → Result (String × ℕ)
with_port host none = err failed
with_port host (some port) = ok (host, port)

abbrev pub upstream_of : String → ℕ → Option (String × String) → Result (String × ℕ)
upstream_of val default_port none = ok (val, default_port)
upstream_of val default_port (some (host, port)) = with_port host (parse_port port)

unfoldable pub get_upstream : String → ℕ → Result (String × ℕ)
unfolding cut parse_port
get_upstream val default_port = upstream_of val default_port (cut ":" val)

-- The map of the resolver, and when its file was last changed, as far as it was seen.
pub record LocalResolver : Type 0 where
  pub hosts : Map String
  pub last_stat : Option ℕ

abbrev pub add_line : Option (String × String) → Map String → Map String
add_line none hosts = hosts
add_line (some (ip, host)) hosts = insert host ip hosts

unfoldable pub add_lines : List String → Map String → Map String
unfolding cut insert
add_lines [] hosts = hosts
add_lines (line ∷ lines) hosts = add_lines lines (add_line (cut "\t" line) hosts)

-- A file that cannot be read changes nothing; hosts that it no longer has stay.
unfoldable pub rebuild : Result String → Map String → Map String
unfolding add_lines split
rebuild (err e) hosts = hosts
rebuild (ok file_data) hosts = add_lines (split "\n" file_data) hosts

abbrev pub is_new : Option ℕ → ℕ → Bool
is_new none mod_time = true
is_new (some last) mod_time = not (leb last mod_time && leb mod_time last)

-- A round of Start: the time of the file's change if there is one, and what it holds.
unfoldable pub watch : Result ℕ → Result String → LocalResolver → LocalResolver
unfolding rebuild
watch (err e) file_data l = l
watch (ok mod_time) file_data l = record {
  hosts = if is_new l.last_stat mod_time then rebuild file_data l.hosts else l.hosts;
  last_stat = some mod_time;
}

-- The method get: the empty text stands for a host that is not there.
unfoldable pub get_host : String → Map String → String
unfolding lookup
get_host upstream hosts = get_or "" (lookup upstream hosts)

-- What one poll finds: the hosts, and whether the time is over after it.
pub record Poll : Type 0 where
  pub hosts : Map String
  pub timed_out : Bool

-- The method Get: the value that it sends on the channel, none if it gives up. The polls are those
-- that the clock allows, the last of which is over time.
unfoldable pub get_polling : String → List Poll → Option String
unfolding get_host
get_polling upstream [] = none
get_polling upstream (p ∷ polls) =
    let rest = get_polling upstream polls in
    let val = get_host upstream p.hosts in
    if not (val == "") then some val else if p.timed_out then none else rest

pub record Proxy : Type 0 where
  pub upstream : String
  pub port : ℕ
  pub host_ip : String

-- The value that Start receives: nothing is sent by a resolver that gave up, and nobody closes the
-- channel.
abbrev pub received : Option String → Outcome String
received (some ip) = return ip
received none = blocked

abbrev pub addresses : Proxy → ℕ → Outcome String → Outcome (Result (String × String))
addresses p port (return ip) =
    return (ok (p.host_ip <> (":" <> decimal p.port), ip <> (":" <> decimal port)))
addresses p port panic = panic
addresses p port blocked = blocked

abbrev pub on_upstream :
    Proxy → List Poll → Result (String × ℕ) → Outcome (Result (String × String))
on_upstream p polls (err e) = return (err e)
on_upstream p polls (ok (host, port)) = addresses p port (received (get_polling host polls))

-- Start up to the loop that accepts connections: where it listens, and where to it forwards.
unfoldable pub start_proxy : Proxy → List Poll → Outcome (Result (String × String))
unfolding get_upstream get_polling
start_proxy p polls = on_upstream p polls (get_upstream p.upstream p.port)
