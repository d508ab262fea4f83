-- ===== src/Catalog/Cursors.antt =====
-- packages/core/src/catalog/opaque-cursor-store.ts, `OpaqueCursorStore`. What the clock and the
-- entropy source return comes with the call: `none` for a value of another type, and `random` gives
-- the value for each attempt.
pub mod Laws
pub mod Bounds
pub mod Kept
pub mod Reading
pub mod Lifetime
use Prim.Native.Char.{code}
use gptsession_bridge.Shared.{
  ℕ, zero, suc, ◌+◌, String, Bool, true, false, not, ◌&&◌, Option, none, some, List, [], ◌∷◌,
  Result, ok, err, leb, ltb, string_eq, option_eq, ◌==◌, if◌then◌else◌,
}
use gptsession_bridge.Shared.Exec.{Exec, pure, lift, gets, modify, ◌>>=◌, ◌>>◌}
use gptsession_bridge.Shared.Table.{Table, get, has, set, delete, size}
use gptsession_bridge.Protocol.Text.{max_safe_integer, utf16_length, all_chars, length_within}
use gptsession_bridge.Namespace.{is_base64url}
use gptsession_bridge.Values.Strings.{strip_prefix, starts_with, concat}
use gptsession_bridge.Catalog.Codes.{
  Code, cursor_expired, cursor_generation_failed, invalid_configuration, invalid_cursor,
}

pub record Stored {ℓ} (T : Type ℓ) : Type ℓ where
  pub expires_at : ℕ
  pub value : T

pub record Store {ℓ} (T : Type ℓ) : Type ℓ where
  pub entries : Table String (Stored T)
  pub max_entries : ℕ
  pub prefix : String
  pub ttl : ℕ

abbrev pub default_prefix : String
default_prefix = "gptsb:model-catalog:v1:"

abbrev pub max_attempts : ℕ
max_attempts = 8

-- assertPositiveSafeInteger
abbrev pub positive_safe : ℕ → Bool
positive_safe n = leb 1 n && leb n max_safe_integer

abbrev pub or_default : Option String → String
or_default none = default_prefix
or_default (some p) = p

-- isValidEntropy
unfoldable pub is_valid_entropy : String → Bool
is_valid_entropy s = length_within 16 256 s && all_chars is_base64url s

-- safeExpiry
unfoldable pub safe_expiry : ℕ → ℕ → Result Code ℕ
safe_expiry now ttl =
    if leb (now + ttl) max_safe_integer then ok (now + ttl) else err invalid_configuration

-- #readNow
unfoldable pub read_now : Option ℕ → Result Code ℕ
read_now none = err invalid_configuration
read_now (some now) = if leb now max_safe_integer then ok now else err invalid_configuration

pub data Call {ℓ} (T : Type ℓ) : Type ℓ where
  creates : T → Option ℕ → (ℕ → Option String) → Call T
  reads : String → Option ℕ → Call T
  sizes : Option ℕ → Call T

module _ {ℓ} {T : Type ℓ} where
  -- The constructor.
  unfoldable pub create_store : ℕ → ℕ → Option String → Result Code (Store T)
  create_store max_entries ttl given =
      if positive_safe max_entries && (positive_safe ttl && length_within 1 128 (or_default given))
      then ok
          (record { entries = []; max_entries = max_entries; prefix = or_default given; ttl = ttl })
      else err invalid_configuration

  -- #pruneExpired
  unfoldable pub prune : ℕ → Option String → Table String (Stored T) → Table String (Stored T)
  prune now except [] = []
  prune now except ((cursor, stored) ∷ m) =
      let rest = prune now except m in
      if not (some cursor == except) && leb stored.expires_at now
      then rest
      else (cursor, stored) ∷ rest

  unfoldable pub without_oldest : Table String (Stored T) → Table String (Stored T)
  without_oldest [] = []
  without_oldest (entry ∷ m) = m

  -- #evictOldestIfFull
  unfoldable pub evict : ℕ → Table String (Stored T) → Table String (Stored T)
  unfolding without_oldest
  evict max_entries m = if ltb (size m) max_entries then m else without_oldest m

  abbrev pub with_entries : Table String (Stored T) → Store T → Store T
  with_entries m s = record s { entries = m }

  -- The end of an attempt, whose cursor is free: the oldest entry goes before the expiry is known.
  unfoldable pub insert : T → ℕ → String → Exec (Store T) Code String
  unfolding evict safe_expiry
  insert value now cursor = do
    modify (λ s. with_entries (evict s.max_entries s.entries) s)
    ttl ← gets (λ s. s.ttl)
    expires_at ← lift (safe_expiry now ttl)
    modify (λ s.
        with_entries (set s.entries cursor (record { expires_at = expires_at; value = value })) s)
    pure cursor

  abbrev pub attempt_with :
      T → ℕ → Exec (Store T) Code String → Option String → Exec (Store T) Code String
  attempt_with value now again none s = (err cursor_generation_failed, s)
  attempt_with value now again (some entropy) s =
      if not (is_valid_entropy entropy)
      then (err cursor_generation_failed, s)
      else if has s.entries (concat s.prefix entropy)
      then again s
      else insert value now (concat s.prefix entropy) s

  -- The loop of `create`: the attempts that are left, and the number of the next.
  unfoldable pub attempt : T → ℕ → (ℕ → Option String) → ℕ → ℕ → Exec (Store T) Code String
  unfolding insert is_valid_entropy
  attempt value now random zero i s = (err cursor_generation_failed, s)
  attempt value now random (suc n) i s =
      attempt_with value now (attempt value now random n (i + 1)) (random i) s

  unfoldable pub create : T → Option ℕ → (ℕ → Option String) → Exec (Store T) Code String
  unfolding read_now prune attempt
  create value clock random = do
    now ← lift (read_now clock)
    modify (λ s. with_entries (prune now none s.entries) s)
    attempt value now random max_attempts 0

  unfoldable pub owns : String → Store T → Bool
  owns cursor s = starts_with cursor s.prefix

  abbrev pub read_stored : String → ℕ → Option (Stored T) → Exec (Store T) Code T
  read_stored cursor now none s = (err invalid_cursor, with_entries (prune now none s.entries) s)
  read_stored cursor now (some stored) s =
      if leb stored.expires_at now
      then (err cursor_expired, with_entries (prune now none (delete s.entries cursor)) s)
      else (ok stored.value, with_entries (prune now (some cursor) s.entries) s)

  unfoldable pub read : String → Option ℕ → Exec (Store T) Code T
  unfolding owns read_now prune
  read cursor clock s =
      if not (owns cursor s)
      then (err invalid_cursor, s)
      else (do
        now ← lift (read_now clock)
        stored ← gets (λ t. get t.entries cursor)
        read_stored cursor now stored)
          s

  unfoldable pub active_size : Option ℕ → Exec (Store T) Code ℕ
  unfolding read_now prune
  active_size clock = do
    now ← lift (read_now clock)
    modify (λ s. with_entries (prune now none s.entries) s)
    gets (λ s. size s.entries)

  unfoldable pub step : Call T → Store T → Store T
  step (creates value clock random) s = (create value clock random s).1
  step (reads cursor clock) s = (read cursor clock s).1
  step (sizes clock) s = (active_size clock s).1

  unfoldable pub run : List (Call T) → Store T → Store T
  unfolding step
  run [] s = s
  run (c ∷ cs) s = run cs (step c s)
