-- ===== src/Merkle.antt =====
-- server/backend/src/cq_server/merkle.py: the SHA-256 Merkle root over the day's payload hashes.
-- A digest is the list of its bytes. `hashlib` and the hexadecimal conversions are parameters.
pub mod Levels
pub mod Tree
pub mod Binding
mod Tests
pub mod Sample
use th_layer_agent.Common.{
  ℕ, zero, suc, ◌%◌, ◌≡◌, String, str_append, List, [], ◌∷◌, ◌++◌, Option, none, some, length,
  last_or, leb, nat_eq, if◌then◌else◌,
}
use Prim.Native.Char.{code}

abbrev pub Bytes : Type 0
Bytes = List ℕ

-- `hashlib.sha256(...).digest()`, `bytes.fromhex` (`none` is its ValueError), `bytes.hex`, and
-- `str.encode("utf-8")`.
pub record Hashing : Type 0 where
  pub sha256 : Bytes → Bytes
  pub from_hex : String → Option Bytes
  pub to_hex : Bytes → String
  pub encode : String → Bytes

-- What the hash and the hexadecimal form are documented to do.
pub record IsHashing (h : Hashing) : Type 0 where
  pub digest_length : (b : Bytes) → length (h.sha256 b) ≡ 32
  pub from_hex-to_hex : (b : Bytes) → h.from_hex (h.to_hex b) ≡ some b

-- `s.startswith(p)` and then `s[len(p):]`.
unfoldable pub after_prefix : String → String → Option String
after_prefix String.[] s = some s
after_prefix (String.◌∷◌ c p) String.[] = none
after_prefix (String.◌∷◌ c p) (String.◌∷◌ d s) =
    if nat_eq (code c) (code d) then after_prefix p s else none

-- `level[0]`; the level has a node wherever it is read.
abbrev pub first : List Bytes → Bytes
first [] = []
first (b ∷ level) = b

module _ (h : Hashing) where
  unfoldable pub empty_day_root : String
  empty_day_root =
      str_append "sha256:" (h.to_hex (h.sha256 (h.encode "8l-reputation-empty-day-v1")))

  -- `none` is a ValueError.
  unfoldable pub strip_prefix : String → Option Bytes
  unfolding after_prefix
  strip_prefix s = elim (after_prefix "sha256:" s) [ none ↦ none | some hex ↦ h.from_hex hex ]

  unfoldable pub hash_pair : Bytes → Bytes → Bytes
  hash_pair left right = h.sha256 (left ++ right)

  -- `level.append(level[-1])` where the level is odd
  unfoldable pub pad : List Bytes → List Bytes
  pad level = if nat_eq (length level % 2) 1 then level ++ last_or [] level ∷ [] else level

  -- the comprehension over `range(0, len(level), 2)`
  unfoldable pub pair_up : List Bytes → List Bytes
  unfolding hash_pair
  pair_up (a ∷ b ∷ level) = hash_pair a b ∷ pair_up level
  pair_up _ = []

  -- The `while len(level) > 1` loop, on fuel.
  unfoldable pub reduce : ℕ → List Bytes → List Bytes
  unfolding pad pair_up
  reduce zero level = level
  reduce (suc fuel) level =
      let next = reduce fuel (pair_up (pad level)) in if leb 2 (length level) then next else level

  -- the list comprehension: it raises with its first element that raises
  unfoldable pub strip_all : List String → Option (List Bytes)
  unfolding strip_prefix
  strip_all [] = some []
  strip_all (s ∷ rest) = elim (strip_prefix s) [
    | none ↦ none
    | some b ↦ elim (strip_all rest) [ none ↦ none | some level ↦ some (b ∷ level) ]
  ]

  abbrev root_text : List Bytes → String
  root_text level = str_append "sha256:" (h.to_hex (first level))

  -- `none` is the ValueError of a leaf that is no `sha256:<hex>` text.
  unfoldable pub merkle_root : List String → Option String
  unfolding empty_day_root strip_all reduce
  merkle_root [] = some empty_day_root
  merkle_root (leaf ∷ leaves) = elim (strip_all (leaf ∷ leaves)) [
    | none ↦ none
    | some level ↦ some (root_text (reduce (length level) level))
  ]
