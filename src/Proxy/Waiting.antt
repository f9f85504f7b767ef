-- ===== src/Proxy/Waiting.antt =====
-- When Start of pkg/proxy.go waits for the resolver for ever.
use faasd.Prelude.{
  ℕ, String, ◌<>◌, ◌==◌, ◌≡◌, refl, Option, none, some, List, [], ◌∷◌, if◌then◌else◌, decimal,
  Bool-cases, inl, inr,
}
use faasd.Effects.{return, blocked, ok}
use faasd.Proxy.{Poll, Proxy, get_host, get_polling, get_upstream, start_proxy}

-- The first address that a poll finds, up to the one after which the time is over.
abbrev pub first_address : String → List Poll → String
first_address host [] = ""
first_address host (p ∷ polls) =
    if get_host host p.hosts == ""
    then if p.timed_out then "" else first_address host polls
    else get_host host p.hosts

abbrev pub sent : String → Option String
sent ip = if ip == "" then none else some ip

get_polling-eq :
    (host : String) (polls : List Poll) → get_polling host polls ≡ sent (first_address host polls)
unfolding get_polling
get_polling-eq host [] = refl
get_polling-eq host (p ∷ polls) = elim (Bool-cases (get_host host p.hosts == "")) [
  | inr found ↦ rw found (rw found refl)
  | inl missing ↦ elim (Bool-cases p.timed_out) [
    | inl over ↦ rw (missing, over) refl
    | inr waiting ↦ rw (missing, waiting) (get_polling-eq host polls)
  ]
]

-- For an upstream that parses, Start forwards from its port to the first address that a poll of the
-- resolver finds, at the port of the upstream, and is blocked for ever, with no error, exactly where
-- no poll up to the time-out finds one.
pub start_proxy-eq :
    (p : Proxy) (polls : List Poll) (host : String) (port : ℕ)
    → get_upstream p.upstream p.port ≡ ok (host, port)
    → start_proxy p polls ≡ (
        if first_address host polls == ""
        then blocked
        else return (
            ok (
              p.host_ip <> (":" <> decimal p.port),
              first_address host polls <> (":" <> decimal port),
            )))
unfolding start_proxy
start_proxy-eq p polls host port parsed = elim (Bool-cases (first_address host polls == "")) [
  | inl missing ↦ rw (parsed, get_polling-eq host polls, missing) refl
  | inr found ↦ rw (parsed, get_polling-eq host polls, found) refl
]
