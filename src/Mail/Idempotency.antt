-- ===== src/Mail/Idempotency.antt =====
-- idempotency.py: answers kept for a time under the caller's key.
use th_layer_agent.Common.{
  ℕ, ◌+◌, ltb, String, Bool, Option, none, some, List, ◌∷◌, ◌==◌, if◌then◌else◌,
}
use th_layer_agent.Sql.{fetchone, delete}
use th_layer_agent.Sql.Keys.{by_key}

-- One item of the dictionary: its key, when it was put, and the answer.
pub record Kept (A : Type 0) : Type 0 where
  pub key : String
  pub at : ℕ
  pub answer : A

module _ {A : Type 0} where
  -- `entries[key] = ...`: the order of a dictionary's items is not read.
  unfoldable pub put_answer : String → A → ℕ → List (Kept A) → List (Kept A)
  put_answer key answer now entries =
      if key == ""
      then entries
      else record { key = key; at = now; answer = answer }
        ∷ delete (by_key (λ x. x.key) key) entries

module _ {A : Type 0} (ttl : ℕ) where
  -- `now - ts > ttl`
  abbrev pub is_stale : ℕ → Kept A → Bool
  is_stale now e = ltb (e.at + ttl) now

  -- The answer, and the entries without a stale one of that key.
  unfoldable pub get_answer : String → ℕ → List (Kept A) → Option A × List (Kept A)
  get_answer key now entries =
      if key == "" then (none, entries) else elim (fetchone (by_key (λ e. e.key) key) entries) [
        | none ↦ (none, entries)
        | some e ↦
            if is_stale now e
            then (none, delete (by_key (λ x. x.key) key) entries)
            else (some e.answer, entries)
      ]

  unfoldable pub sweep : ℕ → List (Kept A) → List (Kept A)
  sweep now entries = delete (is_stale now) entries
