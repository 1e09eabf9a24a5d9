-- ===== src/Mail/Latest.antt =====
-- The cache of answers against its promise: a key gets the answer that was put under it last, for as
-- long as the time to live lasts. The dictionary drops what is stale when it is looked up or swept.
use th_layer_agent.Common.{
  ℕ, ◌≤◌, String, true, ◌≡◌, refl, sym, ap, ◌∙◌, subst, Option, none, some, List, [], ◌∷◌, ◌==◌,
  if◌then◌else◌, Bool-cases, Option-cases, arith, str_eq→eq, str_eq-sym, inl, inr, ◌⊎◌, ltb, ◌+◌,
}
use th_layer_agent.Sql.{fetchone, delete}
use th_layer_agent.Sql.Rows.{fetchone-delete_self}
use th_layer_agent.Sql.Keys.{IsKeyed, delete-IsKeyed}
use th_layer_agent.Mail.Idempotency.{Kept, is_stale, get_answer, put_answer, sweep}
use th_layer_agent.Mail.Swept.{has, fetchone-delete_other, cons-IsKeyed, sweep-sub, sweep-stale}

pub data Use (A : Type 0) : Type 0 where
  ask : String → Use A
  keep : String → A → Use A
  clean : Use A

-- the promise: for each key what was put under it last
abbrev pub Latest : Type 0 → Type 0
Latest A = String → Option (Kept A)

module _ {A : Type 0} where
  unfoldable pub latest_put : String → A → ℕ → Latest A → Latest A
  latest_put key answer now m k =
      if key == ""
      then m k
      else if k == key
      then some (record { key = key; at = now; answer = answer })
      else m k

  unfoldable pub latest_get : ℕ → String → ℕ → Latest A → Option A
  latest_get ttl key now m = if key == "" then none else elim (m key) [
    | none ↦ none
    | some e ↦ if ltb (e.at + ttl) now then none else some e.answer
  ]

  -- a sequence of uses, each at its time, with the answers
  unfoldable pub promised : ℕ → List (ℕ × Use A) → Latest A → List (Option A)
  unfolding latest_put latest_get
  promised ttl [] m = []
  promised ttl ((now, ask key) ∷ uses) m = latest_get ttl key now m ∷ promised ttl uses m
  promised ttl ((now, keep key answer) ∷ uses) m = promised ttl uses (latest_put key answer now m)
  promised ttl ((now, clean) ∷ uses) m = promised ttl uses m

  unfoldable pub served : ℕ → List (ℕ × Use A) → List (Kept A) → List (Option A)
  unfolding get_answer put_answer sweep
  served ttl [] entries = []
  served ttl ((now, ask key) ∷ uses) entries =
      let found = get_answer ttl key now entries in found.0 ∷ served ttl uses found.1
  served ttl ((now, keep key answer) ∷ uses) entries =
      served ttl uses (put_answer key answer now entries)
  served ttl ((now, clean) ∷ uses) entries = served ttl uses (sweep ttl now entries)

  -- the times do not go back
  unfoldable pub InOrder : ℕ → List (ℕ × Use A) → Type 0
  InOrder now [] = Unit
  InOrder now ((at, use_) ∷ uses) = (now ≤ at) × InOrder at uses

  module _ (ttl : ℕ) where
    -- For each key the dictionary has the last entry, or none where that entry is stale.
    Fits : ℕ → Option (Kept A) → Option (Kept A) → Type 0
    Fits now found last =
        (found ≡ last)
        ⊎ ((found ≡ none) × ((e : Kept A) × (last ≡ some e) × (is_stale ttl now e ≡ true)))

    record Agrees (now : ℕ) (m : Latest A) (entries : List (Kept A)) : Type 0 where
      keyed : IsKeyed (λ x. x.key) entries
      fits : (k : String) → Fits now (fetchone (has k) entries) (m k)

    Fits-later :
        (now at : ℕ) (found last : Option (Kept A))
        → now ≤ at
        → Fits now found last
        → Fits at found last
    unfolding Fits
    Fits-later now at found last le (inl same) = inl same
    Fits-later now at found last le (inr (gone, (e, is_last, stale))) =
        inr (gone, (e, is_last, ground arith))

    Agrees-later :
        (now at : ℕ) (m : Latest A) (entries : List (Kept A))
        → now ≤ at
        → Agrees now m entries
        → Agrees at m entries
    Agrees-later now at m entries le a = record {
      keyed = a.keyed;
      fits = λ k. Fits-later now at (fetchone (has k) entries) (m k) le (a.fits k);
    }

    Agrees-put :
        (now : ℕ) (m : Latest A) (entries : List (Kept A)) (key : String) (answer : A)
        → Agrees now m entries
        → Agrees now (latest_put key answer now m) (put_answer key answer now entries)
    unfolding Fits latest_put put_answer fetchone
    Agrees-put now m entries key answer a = elim (Bool-cases (key == "")) [
      | inl t ↦ rw t (record { keyed = a.keyed; fits = λ k. rw t (a.fits k) })
      | inr f ↦ rw f (record {
        keyed = cons-IsKeyed (record { key = key; at = now; answer = answer }) entries a.keyed;
        fits = λ k. elim (Bool-cases (k == key)) [
          | inl same ↦ inl (rw (f, same) (ground (arith, str_eq-sym k key)))
          | inr other ↦
              let old = a.fits k in
              let kept = fetchone-delete_other k key entries other in
              let seen : fetchone (has k)
                    (record { key = key; at = now; answer = answer } ∷ delete (has key) entries)
                  ≡ fetchone (has k) entries =
                ground (arith, str_eq-sym k key) in
              rw (f, other, seen) old
        ];
      })
    ]

    Agrees-sweep :
        (now : ℕ) (m : Latest A) (entries : List (Kept A))
        → Agrees now m entries
        → Agrees now m (sweep ttl now entries)
    unfolding Fits sweep
    Agrees-sweep now m entries a = record {
      keyed = delete-IsKeyed (λ x. x.key) (is_stale ttl now) entries a.keyed;
      fits = λ k. elim (Option-cases (fetchone (has k) (delete (is_stale ttl now) entries))) [
        | inr (r, f) ↦
            let sub = sweep-sub ttl now k entries r a.keyed f in
            elim (a.fits k) [
              | inl same ↦ inl (f ∙ sym sub.0 ∙ same)
              | inr (gone, last) ↦ let clash : some r ≡ none = sym sub.0 ∙ gone in absurd cc
            ]
        | inl n ↦ elim (a.fits k) [
          | inr (gone, last) ↦ inr (n, last)
          | inl same ↦ elim (Option-cases (fetchone (has k) entries)) [
            | inl none_there ↦ inl (n ∙ sym none_there ∙ same)
            | inr (e, h) ↦ inr (n, (e, sym same ∙ h, sweep-stale ttl now k entries e h n))
          ]
        ]
      ];
    }

    -- a stale entry may be dropped
    Agrees-drop :
        (now : ℕ) (m : Latest A) (entries : List (Kept A)) (key : String) (e : Kept A)
        → m key ≡ some e
        → is_stale ttl now e ≡ true
        → Agrees now m entries
        → Agrees now m (delete (has key) entries)
    unfolding Fits
    Agrees-drop now m entries key e is_last stale a = record {
      keyed = delete-IsKeyed (λ x. x.key) (has key) entries a.keyed;
      fits = λ k. elim (Bool-cases (k == key)) [
        | inl same ↦
            let equal = str_eq→eq k key same in
            inr (
              subst (λ x. fetchone (has x) (delete (has key) entries) ≡ none) (sym equal)
                  (fetchone-delete_self (has key) entries),
              (e, ap m equal ∙ is_last, stale),
            )
        | inr other ↦ rw (fetchone-delete_other k key entries other) (a.fits k)
      ];
    }

    Agrees-get :
        (now : ℕ) (m : Latest A) (entries : List (Kept A)) (key : String)
        → Agrees now m entries
        → ((get_answer ttl key now entries).0 ≡ latest_get ttl key now m)
          × Agrees now m (get_answer ttl key now entries).1
    unfolding Fits get_answer latest_get
    Agrees-get now m entries key a = elim (Bool-cases (key == "")) [
      | inl t ↦ rw t (refl, a)
      | inr f ↦ elim (Option-cases (fetchone (has key) entries)) [
        | inl n ↦ elim (a.fits key) [
          | inl same ↦ let last : m key ≡ none = sym same ∙ n in rw f (simp (n, last) (refl, a))
          | inr (gone, (e, last, stale)) ↦ rw f (simp (n, last, stale) (refl, a))
        ]
        | inr (e, h) ↦ elim (a.fits key) [
          | inr (gone, last) ↦ let clash : some e ≡ none = sym h ∙ gone in absurd cc
          | inl same ↦
              let last : m key ≡ some e = sym same ∙ h in
              elim (Bool-cases (is_stale ttl now e)) [
                | inl stale ↦
                    rw f
                      (simp (h, last, stale) (refl, Agrees-drop now m entries key e last stale a))
                | inr fresh ↦ rw f (simp (h, last, fresh) (refl, a))
              ]
        ]
      ]
    ]

    served-promised :
        (now : ℕ) (uses : List (ℕ × Use A)) (m : Latest A) (entries : List (Kept A))
        → InOrder now uses
        → Agrees now m entries
        → served ttl uses entries ≡ promised ttl uses m
    unfolding served promised InOrder
    served-promised now [] m entries order a = refl
    served-promised now ((at, ask key) ∷ uses) m entries order a =
        let b = Agrees-get at m entries key (Agrees-later now at m entries order.0 a) in
        let rest = served-promised at uses m (get_answer ttl key at entries).1 order.1 b.1 in
        λ i. b.0 i ∷ rest i
    served-promised now ((at, keep key answer) ∷ uses) m entries order a =
        served-promised at uses (latest_put key answer at m) (put_answer key answer at entries)
          order.1 (Agrees-put at m entries key answer (Agrees-later now at m entries order.0 a))
    served-promised now ((at, clean) ∷ uses) m entries order a =
        served-promised at uses m (sweep ttl at entries) order.1
          (Agrees-sweep at m entries (Agrees-later now at m entries order.0 a))

    -- However an empty cache is used, at times that do not go back, each question gets the answer that
    -- was kept last under its key if that is at most the time to live ago, and none otherwise.
    pub cache-promised :
        (uses : List (ℕ × Use A))
        → InOrder 0 uses
        → served ttl uses [] ≡ promised ttl uses (λ k. none)
    unfolding IsKeyed fetchone Fits
    cache-promised uses order =
        served-promised 0 uses (λ k. none) [] order
          (record { keyed = λ r i. absurd i; fits = λ k. inl refl })
