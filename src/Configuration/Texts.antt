-- ===== src/Configuration/Texts.antt =====
-- `parsePeerNodes`, and what src/internal/config/config.go uses of the packages strings and strconv.
-- A text is a sequence of characters; bytes that are no UTF-8 have no counterpart here.
use Prim.Native.Char.{Char, code}
use amy_queue.Prelude.{
  ℕ, String, ◌+◌, ◌-◌, ◌*◌, Bool, true, false, ◌&&◌, ◌||◌, not, Option, none, some, List, [], ◌∷◌,
  ltb, leb, ◌==◌, if◌then◌else◌, two63, two64, u64, nat_eq, string_eq,
}

abbrev pub is_comma : Char → Bool
is_comma c = code c == b','

-- Unicode's White_Space, which `strings.TrimSpace` trims.
abbrev pub is_space : Char → Bool
is_space c =
    let n = code c in
    (leb 9 n && leb n 13)
    || n == 32
    || n == 133
    || n == 160
    || n == 5760
    || (leb 8192 n && leb n 8202)
    || n == 8232
    || n == 8233
    || n == 8239
    || n == 8287
    || n == 12288

abbrev pub push : Char → List String → List String
push c [] = String.◌∷◌ c String.[] ∷ []
push c (w ∷ ws) = String.◌∷◌ c w ∷ ws

-- `strings.Split(s, ",")`.
unfoldable pub split : String → List String
split String.[] = String.[] ∷ []
split (String.◌∷◌ c s) = let rest = split s in if is_comma c then String.[] ∷ rest else push c rest

-- The two halves of `strings.TrimSpace`.
unfoldable pub trim_left : String → String
trim_left String.[] = String.[]
trim_left (String.◌∷◌ c s) = let rest = trim_left s in if is_space c then rest else String.◌∷◌ c s

abbrev pub is_empty : String → Bool
is_empty String.[] = true
is_empty (String.◌∷◌ _ _) = false

unfoldable pub trim_right : String → String
trim_right String.[] = String.[]
trim_right (String.◌∷◌ c s) =
    let rest = trim_right s in if is_empty rest && is_space c then String.[] else String.◌∷◌ c rest

unfoldable pub trim_space : String → String
trim_space s = trim_right (trim_left s)

-- The loop of `parsePeerNodes`.
unfoldable pub keep_nodes : List String → List String
keep_nodes [] = []
keep_nodes (p ∷ ps) =
    let addr = trim_space p in
    let rest = keep_nodes ps in if not (is_empty addr) then addr ∷ rest else rest

unfoldable pub parse_peer_nodes : String → List String
parse_peer_nodes raw = if is_empty raw then [] else keep_nodes (split raw)

-- The codes of `strings.ToLower(s)`, as far as they can be those of an ASCII text: no letter outside
-- ASCII has one of "false" or "no" as its lower case.
abbrev pub lower : ℕ → ℕ
lower n = if leb b'A' n && leb n b'Z' then n + 32 else n

abbrev pub lowered : String → List ℕ
lowered String.[] = []
lowered (String.◌∷◌ c s) = lower (code c) ∷ lowered s

abbrev pub same_codes : List ℕ → List ℕ → Bool
same_codes [] [] = true
same_codes (a ∷ as') (b ∷ bs) = a == b && same_codes as' bs
same_codes _ _ = false

-- The switch of `getEnvBool`.
unfoldable pub is_true : String → Bool
is_true v =
    let s = lowered (trim_space v) in
    not
      (same_codes s (lowered "false") || same_codes s (lowered "0") || same_codes s (lowered "no"))

abbrev pub is_digit : Char → Bool
is_digit c = leb b'0' (code c) && leb (code c) b'9'

abbrev pub read_digits : ℕ → String → Option ℕ
read_digits acc String.[] = some acc
read_digits acc (String.◌∷◌ c s) =
    let rest = read_digits (10 * acc + (code c - b'0')) s in if is_digit c then rest else none

-- The digits of a number without a sign: none or too many are an error.
abbrev pub read_below : ℕ → String → Option ℕ
read_below bound s =
    if is_empty s
    then none
    else elim (read_digits 0 s) [ none ↦ none | some n ↦ if ltb n bound then some n else none ]

-- `strconv.Atoi`: an int64 as a bit pattern.
unfoldable pub atoi : String → Option ℕ
atoi String.[] = none
atoi (String.◌∷◌ c s) =
    if code c == b'-'
    then elim (read_below (two63 + 1) s) [ none ↦ none | some n ↦ some (u64 (two64 - n)) ]
    else if code c == b'+'
    then read_below two63 s
    else read_below two63 (String.◌∷◌ c s)
