-- ===== src/Common/Strings.antt =====
-- Go strings are sequences of bytes; these are the functions of Go's package strings in use.
use Prim.Native.Nat.{ℕ, ◌+◌, ◌-◌, ◌+◌}
use Prim.Native.Char.{code}
use Prim.Native.String.{String}
use mathlib.Core.Bool.{Bool, true, false, ◌&&◌, ◌||◌}
use mathlib.Core.Option.{Option, none, some}
use mathlib.Core.List.{List, [], ◌∷◌, ◌++◌}
use go_admin.Common.Tests.{leb, nat_beq, list_beq, if◌then◌else◌, text_eq}
use go_admin.Common.Lists.{length, take, drop}

abbrev pub Bytes : Type 0
Bytes = List ℕ

-- The bytes of an ASCII literal.
abbrev pub bytes : String → Bytes
bytes String.[] = []
bytes (String.◌∷◌ c s) = code c ∷ bytes s

-- strings.HasPrefix(s, p)
abbrev pub has_prefix : Bytes → Bytes → Bool
has_prefix s [] = true
has_prefix [] (_ ∷ _) = false
has_prefix (a ∷ s) (b ∷ p) = nat_beq a b && has_prefix s p

-- strings.TrimPrefix(s, p)
abbrev pub trim_prefix : Bytes → Bytes → Bytes
trim_prefix s p = if has_prefix s p then drop (length p) s else s

-- strings.HasSuffix(s, p): len(s) >= len(p) && s[len(s)-len(p):] == p
abbrev pub has_suffix : Bytes → Bytes → Bool
has_suffix s p = leb (length p) (length s) && list_beq (drop (length s - length p) s) p

-- strings.TrimSuffix(s, p)
abbrev pub trim_suffix : Bytes → Bytes → Bytes
trim_suffix s p = if has_suffix s p then take (length s - length p) s else s

-- strings.SplitN(s, sep, 2) for a one-byte separator: the text before the first `sep`, and the
-- text behind it if there is one.
abbrev pub cut : ℕ → Bytes → Bytes × Option Bytes
cut sep [] = ([], none)
cut sep (c ∷ s) =
    let (before, after) = cut sep s in if nat_beq c sep then ([], some s) else (c ∷ before, after)

-- strings.Contains(s, sep) for a one-byte separator
abbrev pub has_byte : ℕ → Bytes → Bool
has_byte b [] = false
has_byte b (c ∷ s) = nat_beq c b || has_byte b s

-- The ASCII white space of strings.TrimSpace and strings.Fields.
abbrev pub is_space : ℕ → Bool
is_space c =
    nat_beq c 32 || nat_beq c 9 || nat_beq c 10 || nat_beq c 11 || nat_beq c 12 || nat_beq c 13

abbrev pub trim_left : Bytes → Bytes
trim_left [] = []
trim_left (c ∷ s) = if is_space c then trim_left s else c ∷ s

-- A space before nothing but spaces goes.
abbrev pub keep_before : ℕ → Bytes → Bytes
keep_before c [] = if is_space c then [] else c ∷ []
keep_before c (d ∷ s) = c ∷ d ∷ s

abbrev pub trim_right : Bytes → Bytes
trim_right [] = []
trim_right (c ∷ s) = keep_before c (trim_right s)

-- strings.TrimSpace
abbrev pub trim_space : Bytes → Bytes
trim_space s = trim_right (trim_left s)

abbrev pub push_front : ℕ → List Bytes → List Bytes
push_front c [] = (c ∷ []) ∷ []
push_front c (w ∷ ws) = (c ∷ w) ∷ ws

-- strings.Split(s, sep) for a one-byte separator
abbrev pub split : ℕ → Bytes → List Bytes
split sep [] = [] ∷ []
split sep (c ∷ s) = let rest = split sep s in if nat_beq c sep then [] ∷ rest else push_front c rest

-- strings.Join(words, sep)
abbrev pub join : Bytes → List Bytes → Bytes
join sep [] = []
join sep (w ∷ []) = w
join sep (w ∷ v ∷ ws) = w ++ (sep ++ join sep (v ∷ ws))

-- The words between spaces, the current one first; it may be empty.
abbrev pub words : Bytes → List Bytes
words [] = [] ∷ []
words (c ∷ s) = let rest = words s in if is_space c then [] ∷ rest else push_front c rest

abbrev pub non_empty : List Bytes → List Bytes
non_empty [] = []
non_empty ([] ∷ ws) = non_empty ws
non_empty ((c ∷ w) ∷ ws) = (c ∷ w) ∷ non_empty ws

-- strings.Fields
abbrev pub fields : Bytes → List Bytes
fields s = non_empty (words s)

-- strings.ToLower on ASCII
abbrev pub lower : ℕ → ℕ
lower c = if leb 65 c && leb c 90 then c + 32 else c

abbrev pub to_lower : Bytes → Bytes
to_lower [] = []
to_lower (c ∷ s) = lower c ∷ to_lower s
