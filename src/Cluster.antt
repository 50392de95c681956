-- ===== src/Cluster.antt =====
-- cluster/router.go: rendezvous hashing over a static list of peers, and the forwarding of events.
-- The answer of the HTTP client is a parameter of `forward`.
use fruitfly.Base.{
  ltb, leb, ◌==◌, if◌then◌else◌, leb→le, le→leb, ltb→lt, ==_iff, &&-true, Bool-cases, Option-cases,
  is_some, length, get_or, set, replicate, take, drop, All, In, select, count_if, length-append,
  length-set, All-append, All-In, In-append_left, In-append_right, In-append, select-append,
  length-select-le, Str, str, str_eq, str_eq→eq, str_eq_refl, str_eq_iff, has_prefix, ℤ, pos,
  negsuc, pos_part, neg_part, ◌≤ℤ◌, ◌<ℤ◌, ltb_ℤ, leb_ℤ, eq_ℤ, eq_ℤ→eq, ≤ℤ_antisymm, StrMap, lookup,
  insert, lookup-insert, ℕ, zero, suc, ◌+◌, ◌-◌, ◌*◌, ◌/◌, ◌%◌, ◌^◌, ◌≤◌, ◌<◌, ◌≡◌, refl, sym, ap,
  ◌∙◌, subst, ◌≢◌, ◌↔◌, ◌⊎◌, inl, inr, Bool, true, false, ◌&&◌, ◌||◌, not, Option, none, some, List,
  [], ◌∷◌, ◌++◌, map, arith,
}
use Prim.Native.Nat.{bit_xor}
pub mod Ownership
pub mod Setup

-- The errors that Forward returns: a *StatusError, or an error of net/http.
pub data ForwardError : Type 0 where
  status_error : Str → ℕ → ForwardError
  http_error : ForwardError

pub record Router : Type 0 where
  pub self : Str
  pub peers : List Str

pub data SetupError : Type 0 where
  empty_peer_list self_not_in_peers : SetupError

pub data Started : Type 0 where
  ready : Router → Started
  failed : SetupError → Started

abbrev pub is_empty : Str → Bool
is_empty [] = true
is_empty (_ ∷ _) = false

-- strings.TrimRight(s, "/")
unfoldable pub trim_slashes : Str → Str
trim_slashes [] = []
trim_slashes (c ∷ rest) =
    let rest' = trim_slashes rest in if is_empty rest' && (c == b'/') then [] else c ∷ rest'

unfoldable pub contains : Str → List Str → Bool
contains s [] = false
contains s (p ∷ ps) = str_eq p s || contains s ps

-- The part of NewRouter after the test for an empty list.
set_up : Str → List Str → Started
unfolding contains
set_up self peers =
    if contains self peers
    then ready (record { self = self; peers = peers })
    else failed self_not_in_peers

unfoldable pub new_router : Str → List Str → Started
unfolding set_up
new_router self [] = failed empty_peer_list
new_router self (p ∷ ps) = set_up (trim_slashes self) (map trim_slashes (p ∷ ps))

abbrev u64 : ℕ → ℕ
u64 n = n % 2 ^ 64

fnv_loop : ℕ → Str → ℕ
fnv_loop h [] = h
fnv_loop h (byte ∷ rest) = fnv_loop (u64 (bit_xor h byte * 1099511628211)) rest

-- hash/fnv's 64-bit FNV-1a.
unfoldable pub fnv_sum : Str → ℕ
unfolding fnv_loop
fnv_sum s = fnv_loop 14695981039346656037 s

unfoldable pub mix64 : ℕ → ℕ
mix64 x0 =
    let x1 = bit_xor x0 (x0 / 2 ^ 30) in
    let x2 = u64 (x1 * 0xbf58476d1ce4e5b9) in
    let x3 = bit_xor x2 (x2 / 2 ^ 27) in
    let x4 = u64 (x3 * 0x94d049bb133111eb) in bit_xor x4 (x4 / 2 ^ 31)

unfoldable pub score : ℕ → Str → ℕ
unfolding fnv_sum mix64
score key_hash p = mix64 (bit_xor (fnv_sum p) key_hash)

-- The test and the assignment of Owner's loop.
unfoldable pub owner_loop : ℕ → Str → ℕ → List Str → Str
owner_loop key_hash best best_score [] = best
owner_loop key_hash best best_score (p ∷ ps) =
    let wins = is_empty best || ltb best_score (score key_hash p) in
    owner_loop key_hash (if wins then p else best) (if wins then score key_hash p else best_score)
      ps

unfoldable pub owner : Router → Str → Str × Bool
unfolding owner_loop
owner r key = let best = owner_loop (fnv_sum key) [] 0 r.peers in (best, str_eq best r.self)

-- What the HTTP client makes of a request: no request, no answer, or a status.
pub data HttpReply : Type 0 where
  bad_request no_response : HttpReply
  status : ℕ → HttpReply

abbrev pub ingest_url : Str → Bool → Str
ingest_url peer batch = (peer ++ str "/events") ++ (if batch then str "/batch" else [])

forward_reply : Str → HttpReply → Option ForwardError
forward_reply peer bad_request = some http_error
forward_reply peer no_response = some http_error
forward_reply peer (status code) = if leb 300 code then some (status_error peer code) else none

-- `http url body` is the answer to the POST of the body with the forwarded header set.
unfoldable pub forward : (Str → Str → HttpReply) → Str → Str → Bool → Option ForwardError
unfolding forward_reply
forward http peer body batch = forward_reply peer (http (ingest_url peer batch) body)
