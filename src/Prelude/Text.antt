-- ===== src/Prelude/Text.antt =====
-- Python's operations on `str` that the program uses, by recursion on the characters.
use Prim.Native.Char.{Char, code}
use Prim.Native.Nat.{ℕ, zero, suc}
use Prim.Native.String.{String, ◌++◌ as ◌<>◌}
use mathlib.Core.Path.{◌≡◌, refl}
use mathlib.Core.Bool.{Bool, true, false, ◌&&◌, ◌||◌}
use mathlib.Core.Option.{Option, none, some}
use mathlib.Core.List.{List, [], ◌∷◌}
use native.Mathlib.Omega.{arith}
use text.Mathlib.TextLemmas.{cons-append, nil-append}
use ai_platform_sdk.Prelude.Tests.{ltb, leb, nat_eq, ◌==◌, if◌then◌else◌}

-- `s.isascii()`
unfoldable pub is_ascii : String → Bool
is_ascii String.[] = true
is_ascii (String.◌∷◌ c s) = ltb (code c) 128 && is_ascii s

-- `hmac.compare_digest` on two `str`: a `TypeError` (`none`) if one of them is not ASCII.
unfoldable pub compare_digest : String → String → Option Bool
unfolding is_ascii
compare_digest s t = if is_ascii s && is_ascii t then some (s == t) else none

-- `c.isspace()`
abbrev pub is_space : Char → Bool
is_space c =
    let n = code c in
    (leb 9 n && leb n 13)
    || (leb 28 n && leb n 32)
    || nat_eq n 133
    || nat_eq n 160
    || nat_eq n 5760
    || (leb 8192 n && leb n 8202)
    || (leb 8232 n && leb n 8233)
    || nat_eq n 8239
    || nat_eq n 8287
    || nat_eq n 12288

unfoldable pub lstrip : String → String
lstrip String.[] = String.[]
lstrip (String.◌∷◌ c s) = let rest = lstrip s in if is_space c then rest else String.◌∷◌ c s

-- `s.rstrip()`
unfoldable pub rstrip : String → String
rstrip String.[] = String.[]
rstrip (String.◌∷◌ c s) =
    let rest = rstrip s in if rest == "" && is_space c then String.[] else String.◌∷◌ c rest

-- `s.strip()`
unfoldable pub strip : String → String
unfolding lstrip rstrip
strip s = lstrip (rstrip s)

-- `s[:n]`
unfoldable pub truncate : ℕ → String → String
truncate zero s = String.[]
truncate (suc n) String.[] = String.[]
truncate (suc n) (String.◌∷◌ c s) = String.◌∷◌ c (truncate n s)

abbrev dot : ℕ
dot = b'.'

unfoldable pub cons_head : Char → List String → List String
cons_head c [] = String.◌∷◌ c String.[] ∷ []
cons_head c (p ∷ ps) = String.◌∷◌ c p ∷ ps

-- `s.split(".")`
unfoldable pub split_dots : String → List String
unfolding cons_head
split_dots String.[] = String.[] ∷ []
split_dots (String.◌∷◌ c s) =
    let rest = split_dots s in if nat_eq (code c) dot then String.[] ∷ rest else cons_head c rest

-- Some character of the text is a dot.
unfoldable pub has_dot : String → Bool
has_dot String.[] = false
has_dot (String.◌∷◌ c s) = let rest = has_dot s in if nat_eq (code c) dot then true else rest

pub split_dots_single : (s : String) → has_dot s ≡ false → split_dots s ≡ s ∷ []
unfolding split_dots has_dot
split_dots_single String.[] h = refl
split_dots_single (String.◌∷◌ c s) h = ground (arith, split_dots_single s)

-- A text without dots, a dot and more: the first part is that text.
pub split_dots-append :
    (s t : String) → has_dot s ≡ false → split_dots (s <> "." <> t) ≡ s ∷ split_dots t
unfolding split_dots has_dot
split_dots-append String.[] t h = rw (nil-append, cons-append, nil-append)
split_dots-append (String.◌∷◌ c s) t h = rw cons-append (ground (arith, split_dots-append s t))
