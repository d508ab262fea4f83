-- ===== src/Routing/State.antt =====
-- The state of `ThreadRouter` and its private bookkeeping.
use gptsession_bridge.Shared.{
  ℕ, ◌+◌, ◌-◌, String, Bool, true, false, not, ◌&&◌, ◌||◌, List, [], ◌∷◌, ◌++◌, Option, none, some,
  Result, ok, err, throw_if, ◌>>=◌, ◌>>◌, length, leb, ltb, contains, string_eq, ◌==◌,
  if◌then◌else◌,
}
use gptsession_bridge.Shared.Table.{Table, get, has, set, delete}
use gptsession_bridge.Namespace.{is_capability_token}
use gptsession_bridge.Routing.Codes.{
  Code, invalid_configuration, thread_route_blocked, thread_route_pending,
}
use gptsession_bridge.Routing.Registry.{Registry}
use gptsession_bridge.Routing.Decide.{Route}
use gptsession_bridge.Routing.Inject.{Configuration}

-- PendingRouteDecision
pub record Pending : Type 0 where
  pub expected_fork_source : Option String
  pub expected_resume : Option String
  pub quarantined : Option String
  pub requires_new_thread : Bool
  pub requires_fork_source : Bool
  pub reserves_slot : Bool
  pub route : Route

pub record Router : Type 0 where
  pub configuration : Configuration
  pub max_pending : ℕ
  pub max_threads : ℕ
  pub blocked : List String
  pub models : Registry
  pub pending : Table String Pending
  pub provisional : Table String ℕ
  pub threads : Table String Route
  pub reservations : ℕ
  pub compromised : Bool

-- What the platform's `new URL(text)` says of the base URL, where it does not throw.
pub record Url : Type 0 where
  pub protocol : String
  pub hostname : String
  pub port : String
  pub username : String
  pub password : String
  pub search : String
  pub hash : String
  pub pathname : String
  pub text : String

-- text.replace(/\/$/u, "")
unfoldable pub strip_slash : String → String
strip_slash String.[] = String.[]
strip_slash (String.◌∷◌ c String.[]) =
    if String.◌∷◌ c String.[] == "/" then "" else String.◌∷◌ c String.[]
strip_slash (String.◌∷◌ c (String.◌∷◌ d s)) = String.◌∷◌ c (strip_slash (String.◌∷◌ d s))

-- validateLoopbackBaseUrl
unfoldable pub validate_base_url : Option Url → Result Code String
unfolding strip_slash
validate_base_url none = err invalid_configuration
validate_base_url (some u) = do
  throw_if (not (u.protocol == "http:" && u.hostname == "127.0.0.1")) invalid_configuration
  throw_if (u.port == "" || not (u.username == "") || not (u.password == "")) invalid_configuration
  throw_if (not (u.search == "") || not (u.hash == "")) invalid_configuration
  throw_if (not (u.pathname == "/v1") && not (u.pathname == "/v1/")) invalid_configuration
  ok (strip_slash u.text)

-- readCapacity, of a safe integer.
unfoldable pub read_capacity : Option ℕ → ℕ → Result Code ℕ
read_capacity none fallback = ok fallback
read_capacity (some n) fallback = if ltb n 1 then err invalid_configuration else ok n

unfoldable pub create : String → Option Url → Option ℕ → Option ℕ → Registry → Result Code Router
unfolding validate_base_url read_capacity
create token url max_pending max_threads models = do
  throw_if (not (is_capability_token token)) invalid_configuration
  base ← validate_base_url url
  pending_capacity ← read_capacity max_pending 256
  thread_capacity ← read_capacity max_threads 4096
  ok (record {
    configuration = record { base_url = base; capability_token = token };
    max_pending = pending_capacity;
    max_threads = thread_capacity;
    blocked = [];
    models = models;
    pending = [];
    provisional = [];
    threads = [];
    reservations = 0;
    compromised = false;
  })

-- #assertRoutingIntegrity
unfoldable pub assert_integrity : Router → Result Code (Unit {0})
assert_integrity r = throw_if r.compromised thread_route_blocked

-- #assertThreadAvailable
unfoldable pub assert_thread_available : Router → Option String → Result Code (Unit {0})
assert_thread_available r none = ok tt
assert_thread_available r (some t) = do
  throw_if (contains r.blocked t) thread_route_blocked
  throw_if (has r.provisional t) thread_route_pending

-- The route of a thread that may be absent.
unfoldable pub route_of : Router → Option String → Option Route
route_of r none = none
route_of r (some t) = get r.threads t

-- #blockThread
unfoldable pub block_thread : Option String → Router → Router
block_thread none r = r
block_thread (some t) r =
    if contains r.blocked t
    then r
    else if leb r.max_threads (length r.blocked)
    then record r { compromised = true }
    else record r { blocked = r.blocked ++ t ∷ [] }

unfoldable pub count_or_zero : Option ℕ → ℕ
count_or_zero none = 0
count_or_zero (some n) = n

-- #quarantineThread
unfoldable pub quarantine : Option String → Table String ℕ → Table String ℕ
unfolding count_or_zero
quarantine none m = m
quarantine (some t) m = set m t (count_or_zero (get m t) + 1)

-- #releaseThreadQuarantine
unfoldable pub release_quarantine : Option String → Table String ℕ → Table String ℕ
unfolding count_or_zero
release_quarantine none m = m
release_quarantine (some t) m =
    if leb (count_or_zero (get m t)) 1 then delete m t else set m t (count_or_zero (get m t) - 1)

-- #releasePending
unfoldable pub release_pending : String → Pending → Router → Router
unfolding release_quarantine
release_pending key p r = record r {
  pending = delete r.pending key;
  provisional = release_quarantine p.quarantined r.provisional;
  reservations = if p.reserves_slot then r.reservations - 1 else r.reservations;
}
