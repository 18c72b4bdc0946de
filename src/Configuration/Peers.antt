-- ===== src/Configuration/Peers.antt =====
-- The comma-separated lists of addresses that `parsePeerNodes` (src/internal/config/config.go) reads.
use Prim.Native.Char.{Char, char}
use amy_queue.Prelude.{
  String, ◌≡◌, refl, ap, ◌∙◌, inl, inr, Bool-cases, false, ◌&&◌, List, [], ◌∷◌, All, string_eq,
  nat_eq,
}
use amy_queue.Configuration.Texts.{
  is_comma, is_space, is_empty, push, split, trim_left, trim_right, trim_space, keep_nodes,
  parse_peer_nodes,
}

abbrev HasNoComma : String → Type 0
HasNoComma String.[] = Unit
HasNoComma (String.◌∷◌ c s) = (is_comma c ≡ false) × HasNoComma s

-- An address as `parsePeerNodes` gives them: not empty, without a comma, and with no space around it.
pub record IsAddress (s : String) : Type 0 where
  pub filled : is_empty s ≡ false
  pub whole : HasNoComma s
  pub trimmed : trim_space s ≡ s

abbrev concat : String → String → String
concat String.[] t = t
concat (String.◌∷◌ c s) t = String.◌∷◌ c (concat s t)

abbrev comma : Char
comma = char 44 tt

-- The addresses with commas between them, as a user writes PEER_NODES.
abbrev pub join : List String → String
join [] = String.[]
join (a ∷ []) = a
join (a ∷ b ∷ rest) = concat a (String.◌∷◌ comma (join (b ∷ rest)))

split-concat : (a t : String) → HasNoComma a → split (concat a (String.◌∷◌ comma t)) ≡ a ∷ split t
unfolding split
split-concat String.[] t h = refl
split-concat (String.◌∷◌ c a) t (h, k) = rw (split, h, split-concat a t k) refl

split_one : (a : String) → HasNoComma a → split a ≡ a ∷ []
unfolding split
split_one String.[] h = refl
split_one (String.◌∷◌ c a) (h, k) = rw (split, h, split_one a k) refl

split-join :
    (a : String) (rest : List String)
    → All IsAddress (a ∷ rest)
    → split (join (a ∷ rest)) ≡ a ∷ rest
split-join a [] (h, _) = split_one a h.whole
split-join a (b ∷ rest) (h, k) =
    split-concat a (join (b ∷ rest)) h.whole ∙ ap (λ ps. a ∷ ps) (split-join b rest k)

keep_addresses : (ps : List String) → All IsAddress ps → keep_nodes ps ≡ ps
unfolding keep_nodes
keep_addresses [] h = refl
keep_addresses (p ∷ ps) (h, k) = rw (keep_nodes, h.trimmed, h.filled, keep_addresses ps k) refl

is_empty-concat : (a t : String) → is_empty a ≡ false → is_empty (concat a t) ≡ false
is_empty-concat String.[] t h = absurd cc
is_empty-concat (String.◌∷◌ c a) t h = refl

is_empty-join :
    (a : String) (rest : List String) → is_empty a ≡ false → is_empty (join (a ∷ rest)) ≡ false
is_empty-join a [] h = h
is_empty-join a (b ∷ rest) h = is_empty-concat a (String.◌∷◌ comma (join (b ∷ rest))) h

-- A list of addresses, each not empty, without a comma and without space around it, is read back as it was
-- when it is written with commas between them.
pub parse_peer_nodes-join :
    (addrs : List String) → All IsAddress addrs → parse_peer_nodes (join addrs) ≡ addrs
unfolding parse_peer_nodes
parse_peer_nodes-join [] h = refl
parse_peer_nodes-join (a ∷ rest) h =
    rw (parse_peer_nodes, is_empty-join a rest h.0.filled, split-join a rest h)
      (keep_addresses (a ∷ rest) h)

-- How a text begins after `trim_left`.
abbrev StartsPlain : String → Type 0
StartsPlain String.[] = Unit
StartsPlain (String.◌∷◌ c s) = is_space c ≡ false

trim_left-StartsPlain : (s : String) → StartsPlain (trim_left s)
unfolding trim_left
trim_left-StartsPlain String.[] = tt
trim_left-StartsPlain (String.◌∷◌ c s) = elim (Bool-cases (is_space c)) [
  | inl t ↦ rw (trim_left, t) (trim_left-StartsPlain s)
  | inr f ↦ rw (trim_left, f) f
]

trim_left_plain : (s : String) → StartsPlain s → trim_left s ≡ s
unfolding trim_left
trim_left_plain String.[] h = refl
trim_left_plain (String.◌∷◌ c s) h = rw (trim_left, h) refl

trim_right-StartsPlain : (s : String) → StartsPlain s → StartsPlain (trim_right s)
unfolding trim_right
trim_right-StartsPlain String.[] h = tt
trim_right-StartsPlain (String.◌∷◌ c s) h =
    elim (Bool-cases (is_empty (trim_right s) && is_space c)) [
      | inl t ↦ rw (trim_right, t) tt
      | inr f ↦ rw (trim_right, f) h
    ]

trim_right_idem : (s : String) → trim_right (trim_right s) ≡ trim_right s
unfolding trim_right
trim_right_idem String.[] = refl
trim_right_idem (String.◌∷◌ c s) = elim (Bool-cases (is_empty (trim_right s) && is_space c)) [
  | inl t ↦ rw (trim_right, t) refl
  | inr f ↦ rw (trim_right, f, trim_right_idem s, f) refl
]

trim_space_idem : (s : String) → trim_space (trim_space s) ≡ trim_space s
unfolding trim_space
trim_space_idem s =
    let plain = trim_right-StartsPlain (trim_left s) (trim_left-StartsPlain s) in
    ap trim_right (trim_left_plain (trim_right (trim_left s)) plain) ∙ trim_right_idem (trim_left s)

trim_left-HasNoComma : (s : String) → HasNoComma s → HasNoComma (trim_left s)
unfolding trim_left
trim_left-HasNoComma String.[] h = tt
trim_left-HasNoComma (String.◌∷◌ c s) h = elim (Bool-cases (is_space c)) [
  | inl t ↦ rw (trim_left, t) (trim_left-HasNoComma s h.1)
  | inr f ↦ rw (trim_left, f) h
]

trim_right-HasNoComma : (s : String) → HasNoComma s → HasNoComma (trim_right s)
unfolding trim_right
trim_right-HasNoComma String.[] h = tt
trim_right-HasNoComma (String.◌∷◌ c s) h =
    elim (Bool-cases (is_empty (trim_right s) && is_space c)) [
      | inl t ↦ rw (trim_right, t) tt
      | inr f ↦ rw (trim_right, f) (h.0, trim_right-HasNoComma s h.1)
    ]

trim_space-HasNoComma : (s : String) → HasNoComma s → HasNoComma (trim_space s)
unfolding trim_space
trim_space-HasNoComma s h = trim_right-HasNoComma (trim_left s) (trim_left-HasNoComma s h)

push-HasNoComma :
    (c : Char) (ws : List String)
    → is_comma c ≡ false
    → All HasNoComma ws
    → All HasNoComma (push c ws)
push-HasNoComma c [] f h = ((f, tt), tt)
push-HasNoComma c (w ∷ ws) f h = ((f, h.0), h.1)

split-HasNoComma : (s : String) → All HasNoComma (split s)
unfolding split
split-HasNoComma String.[] = (tt, tt)
split-HasNoComma (String.◌∷◌ c s) = elim (Bool-cases (is_comma c)) [
  | inl t ↦ rw (split, t) (tt, split-HasNoComma s)
  | inr f ↦ rw (split, f) (push-HasNoComma c (split s) f (split-HasNoComma s))
]

keep_nodes-IsAddress : (ps : List String) → All HasNoComma ps → All IsAddress (keep_nodes ps)
unfolding keep_nodes
keep_nodes-IsAddress [] h = tt
keep_nodes-IsAddress (p ∷ ps) h = elim (Bool-cases (is_empty (trim_space p))) [
  | inl t ↦ rw (keep_nodes, t) (keep_nodes-IsAddress ps h.1)
  | inr f ↦
      let address : IsAddress (trim_space p) = record {
        filled = f;
        whole = trim_space-HasNoComma p h.0;
        trimmed = trim_space_idem p;
      } in
      rw (keep_nodes, f) (address, keep_nodes-IsAddress ps h.1)
]

pub parse_peer_nodes-IsAddress : (raw : String) → All IsAddress (parse_peer_nodes raw)
unfolding parse_peer_nodes
parse_peer_nodes-IsAddress raw = elim (Bool-cases (is_empty raw)) [
  | inl t ↦ rw (parse_peer_nodes, t) tt
  | inr f ↦ rw (parse_peer_nodes, f) (keep_nodes-IsAddress (split raw) (split-HasNoComma raw))
]
