-- ===== src/Values/Strings.antt =====
-- String methods of JavaScript that the program calls.
use Prim.Native.Char.{code}
use gptsession_bridge.Shared.{
  ℕ, ◌+◌, ◌≡◌, refl, arith, String, Bool, true, false, not, ◌&&◌, ◌||◌, Option, none, some, leb,
  nat_beq, if◌then◌else◌,
}

-- The rest of a text behind a prefix.
unfoldable pub strip_prefix : String → String → Option String
strip_prefix String.[] s = some s
strip_prefix (String.◌∷◌ c p) String.[] = none
strip_prefix (String.◌∷◌ c p) (String.◌∷◌ d s) =
    if nat_beq (code c) (code d) then strip_prefix p s else none

-- s.startsWith(p)
unfoldable pub starts_with : String → String → Bool
unfolding strip_prefix
starts_with s p = elim (strip_prefix p s) [ none ↦ false | some rest ↦ true ]

-- s.includes(p)
unfoldable pub includes : String → String → Bool
unfolding starts_with
includes String.[] p = starts_with String.[] p
includes (String.◌∷◌ c s) p = starts_with (String.◌∷◌ c s) p || includes s p

-- WhiteSpace and LineTerminator of the language.
is_space : ℕ → Bool
is_space c =
    (leb 9 c && leb c 13)
    || nat_beq c 0x20
    || nat_beq c 0xA0
    || nat_beq c 0x1680
    || (leb 0x2000 c && leb c 0x200A)
    || nat_beq c 0x2028
    || nat_beq c 0x2029
    || nat_beq c 0x202F
    || nat_beq c 0x205F
    || nat_beq c 0x3000
    || nat_beq c 0xFEFF

unfoldable pub trim_start : String → String
unfolding is_space
trim_start String.[] = String.[]
trim_start (String.◌∷◌ c s) = if is_space (code c) then trim_start s else String.◌∷◌ c s

-- toLowerCase on ASCII letters; no other character becomes a letter of the prefixes compared here.
ascii_lower : ℕ → ℕ
ascii_lower c = if leb b'A' c && leb c b'Z' then c + 32 else c

-- s.slice(0, p.length).toLowerCase() === p
unfoldable pub starts_with_lower : String → String → Bool
unfolding ascii_lower
starts_with_lower s String.[] = true
starts_with_lower String.[] (String.◌∷◌ d p) = false
starts_with_lower (String.◌∷◌ c s) (String.◌∷◌ d p) =
    nat_beq (ascii_lower (code c)) (code d) && starts_with_lower s p

-- The last character, if there is one, passes a test.
unfoldable pub last_is : (ℕ → Bool) → String → Bool
last_is p String.[] = false
last_is p (String.◌∷◌ c String.[]) = p (code c)
last_is p (String.◌∷◌ c (String.◌∷◌ d s)) = last_is p (String.◌∷◌ d s)

-- s.trim() === s
unfoldable pub is_trimmed : String → Bool
unfolding is_space last_is
is_trimmed String.[] = true
is_trimmed (String.◌∷◌ c s) = not (is_space (code c)) && not (last_is is_space (String.◌∷◌ c s))

-- `${a}${b}`
unfoldable pub concat : String → String → String
concat String.[] b = b
concat (String.◌∷◌ c a) b = String.◌∷◌ c (concat a b)

pub strip_prefix-concat : (p s : String) → strip_prefix p (concat p s) ≡ some s
unfolding strip_prefix concat
strip_prefix-concat String.[] s = refl
strip_prefix-concat (String.◌∷◌ c p) s = ground (arith, strip_prefix-concat p s)

pub starts_with-concat : (p s : String) → starts_with (concat p s) p ≡ true
unfolding starts_with
starts_with-concat p s = rw (starts_with, strip_prefix-concat p s) refl
