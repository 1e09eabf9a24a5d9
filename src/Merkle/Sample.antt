-- ===== src/Merkle/Sample.antt =====
-- A concrete hash and a concrete text form of bytes, at which the Merkle code runs. The hash is no
-- SHA-256: it only has its length. A byte is written as as many letters a, and a letter b behind them.
use Prim.Native.Char.{code}
use Prim.Native.String.{◌∷◌ as str_cons}
use th_layer_agent.Common.{
  ℕ, zero, suc, ◌+◌, ◌%◌, ◌≡◌, refl, ap, ◌∙◌, String, [], ◌∷◌, Option, none, some, arith, nat_eq,
  if◌then◌else◌, ◌*◌,
}
use th_layer_agent.Merkle.{Bytes, Hashing, IsHashing}

abbrev weight : ℕ → Bytes → ℕ
weight i [] = 7
weight i (b ∷ bytes) = i * b + weight (i + 1) bytes

abbrev replicate : ℕ → ℕ → Bytes
replicate zero b = []
replicate (suc n) b = b ∷ replicate n b

abbrev toy_digest : Bytes → Bytes
toy_digest bytes = weight 1 bytes % 256 ∷ replicate 31 0

abbrev pub unary : ℕ → String → String
unary zero s = str_cons "b" s
unary (suc n) s = str_cons "a" (unary n s)

abbrev pub toy_text : Bytes → String
toy_text [] = ""
toy_text (b ∷ bytes) = unary b (toy_text bytes)

abbrev more : ℕ → Option Bytes → Option Bytes
more b none = none
more b (some bytes) = some (b ∷ bytes)

abbrev read_unary : ℕ → String → Option Bytes
read_unary n String.[] = if nat_eq n 0 then some [] else none
read_unary n (String.◌∷◌ c s) =
    let letter_a = read_unary (suc n) s in
    let letter_b = more n (read_unary 0 s) in if nat_eq (code c) b'a' then letter_a else letter_b

abbrev text_codes : String → Bytes
text_codes String.[] = []
text_codes (String.◌∷◌ c s) = code c ∷ text_codes s

abbrev pub toy : Hashing
toy = record {
  sha256 = toy_digest;
  from_hex = read_unary 0;
  to_hex = toy_text;
  encode = text_codes;
}

read_unary-unary : (n k : ℕ) (s : String) → read_unary k (unary n s) ≡ more (k + n) (read_unary 0 s)
read_unary-unary zero k s = let e : k ≡ k + 0 = omega arith in ap (λ n. more n (read_unary 0 s)) e
read_unary-unary (suc n) k s =
    let e : suc k + n ≡ k + suc n = omega arith in
    read_unary-unary n (suc k) s ∙ ap (λ m. more m (read_unary 0 s)) e

from_hex-to_hex : (bytes : Bytes) → read_unary 0 (toy_text bytes) ≡ some bytes
from_hex-to_hex [] = refl
from_hex-to_hex (b ∷ bytes) =
    let e : 0 + b ≡ b = omega arith in
    rw (read_unary-unary b 0 (toy_text bytes), from_hex-to_hex bytes) (ap (λ n. some (n ∷ bytes)) e)

pub toy-IsHashing : IsHashing toy
toy-IsHashing = record { digest_length = λ b. refl; from_hex-to_hex = from_hex-to_hex }
