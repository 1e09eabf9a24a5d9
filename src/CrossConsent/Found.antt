-- ===== src/CrossConsent/Found.antt =====
-- Which consent the read path finds.
use th_layer_agent.Common.{
  ◌≤◌, String, true, false, ◌&&◌, Option, none, some, List, [], ◌∷◌, ◌==◌, is_some, if◌then◌else◌,
  ◌≡◌, refl, sym, ap, subst, ◌⊎◌, inl, inr, arith, Bool-cases, Option-cases, In, All, All-In,
  some_inj,
}
use th_layer_agent.Sql.{select}
use th_layer_agent.Sql.Rows.{In-select, In-select_of}
use th_layer_agent.Sql.Keys.{by_key, In-update}
use th_layer_agent.Reputation.DailyRoot.{text_lt}
use th_layer_agent.CrossConsent.{
  CrossConsent, Query, between, score, applies, beats, best_of, find_cross_enterprise_consent,
  revoke_cross_enterprise_consent,
}

-- The best row of the loop, from a best row so far.
record Best (q : Query) (best : Option CrossConsent) (rows : List CrossConsent) (r : CrossConsent)
    : Type 0 where
  above : All (λ x. applies q x ≡ true → score q x ≤ score q r) rows
  above_best : (b : CrossConsent) → best ≡ some b → score q b ≤ score q r
  from : (best ≡ some r) ⊎ (In r rows × (applies q r ≡ true))

best_of-Best :
    (q : Query) (best : Option CrossConsent) (rows : List CrossConsent) (r : CrossConsent)
    → best_of q best rows ≡ some r
    → Best q best rows r
unfolding best_of
best_of-Best q best [] r h = record {
  above = tt;
  above_best = λ b e. ground (arith, e, h);
  from = inl h;
}
best_of-Best q best (x ∷ rows) r h = elim (Bool-cases (applies q x && beats q x best)) [
  | inl taken ↦
      let rest =
        best_of-Best q (some x) rows r
          (subst (λ b. best_of q (if b then some x else best) rows ≡ some r) taken h) in
      let here = rest.above_best x refl in
      record {
        above = (λ a. here, rest.above);
        above_best = λ b e. ground (arith, e, taken, here);
        from = elim rest.from [
          | inl same ↦ inr (inl (some_inj same), ground (arith, some_inj same, taken))
          | inr (i, a) ↦ inr (inr i, a)
        ];
      }
  | inr passed ↦
      let rest =
        best_of-Best q best rows r
          (subst (λ b. best_of q (if b then some x else best) rows ≡ some r) passed h) in
      record {
        above = (
          λ a. elim (Option-cases best) [
            | inl first ↦ absurd (ground (arith, first, a, passed))
            | inr (b, e) ↦ let under = rest.above_best b e in ground (arith, e, a, passed, under)
          ],
          rest.above,
        );
        above_best = rest.above_best;
        from = elim rest.from [ inl same ↦ inl same | inr (i, a) ↦ inr (inr i, a) ];
      }
]

-- A consent that is found is a row between the two Enterprises, in force at the time of the query,
-- that names no other group than the query's, and no other such row is more specific.
pub find_cross_enterprise_consent-best :
    (q : Query) (rows : List CrossConsent) (r : CrossConsent)
    → find_cross_enterprise_consent q rows ≡ some r
    → In r rows
      × (between q r ≡ true)
      × (applies q r ≡ true)
      × ((x : CrossConsent)
          → In x rows
          → between q x ≡ true
          → applies q x ≡ true
          → score q x ≤ score q r)
unfolding find_cross_enterprise_consent
find_cross_enterprise_consent-best q rows r h =
    let best = best_of-Best q none (select (between q) rows) r h in
    elim best.from [
      | inl nothing ↦ absurd (ground (arith, nothing))
      | inr (i, a) ↦
          let found = In-select (between q) rows {r = r} i in
          (
            found.0,
            found.1,
            a,
            λ x j b.
                All-In (λ y. applies q y ≡ true → score q y ≤ score q r) (select (between q) rows)
                  best.above (In-select_of (between q) rows {r = x} j b),
          )
    ]

-- After a consent is revoked, no query at the time of its revocation or later finds it.
pub revoke_cross_enterprise_consent-gone :
    (consent_id revoked_at : String) (q : Query) (rows : List CrossConsent) (r : CrossConsent)
    → text_lt q.now_iso revoked_at ≡ false
    → find_cross_enterprise_consent q (revoke_cross_enterprise_consent consent_id revoked_at rows).1
      ≡ some r
    → (r.consent_id == consent_id) ≡ false
unfolding revoke_cross_enterprise_consent
revoke_cross_enterprise_consent-gone consent_id revoked_at q rows r late h =
    let found =
      find_cross_enterprise_consent-best q
        (revoke_cross_enterprise_consent consent_id revoked_at rows).1 r h in
    let old =
      In-update (by_key (λ c. c.consent_id) consent_id)
        (λ c. record c { expires_at = some revoked_at }) rows {r' = r} found.0 in
    elim old.2 [
      | inl (yes_id, e) ↦ absurd (ground (arith, found.1, late, ap (λ c. c.expires_at) e))
      | inr (no_id, e) ↦ ground (arith, no_id, e)
    ]

best_of-kept :
    (q : Query) (b : CrossConsent) (rows : List CrossConsent)
    → is_some (best_of q (some b) rows) ≡ true
unfolding best_of
best_of-kept q b [] = refl
best_of-kept q b (x ∷ rows) = elim (Bool-cases (applies q x && beats q x (some b))) [
  | inl taken ↦
      subst (λ t. is_some (best_of q (if t then some x else some b) rows) ≡ true) (sym taken)
        (best_of-kept q x rows)
  | inr passed ↦
      subst (λ t. is_some (best_of q (if t then some x else some b) rows) ≡ true) (sym passed)
        (best_of-kept q b rows)
]

best_of-found :
    (q : Query) (best : Option CrossConsent) (rows : List CrossConsent) (x : CrossConsent)
    → In x rows
    → applies q x ≡ true
    → is_some (best_of q best rows) ≡ true
unfolding best_of
best_of-found q best [] x i a = absurd i
best_of-found q (some b) (y ∷ rows) x i a = best_of-kept q b (y ∷ rows)
best_of-found q none (y ∷ rows) x (inl e) a =
    let taken : (applies q y && true) ≡ true = ground (arith, e, a) in
    subst (λ t. is_some (best_of q (if t then some y else none) rows) ≡ true) (sym taken)
      (best_of-kept q y rows)
best_of-found q none (y ∷ rows) x (inr i) a =
    best_of-found q (if applies q y && beats q y none then some y else none) rows x i a

-- Where some row between the two Enterprises is in force and names no other group than the query's, a
-- consent is found.
pub find_cross_enterprise_consent-found :
    (q : Query) (rows : List CrossConsent) (x : CrossConsent)
    → In x rows
    → between q x ≡ true
    → applies q x ≡ true
    → is_some (find_cross_enterprise_consent q rows) ≡ true
unfolding find_cross_enterprise_consent
find_cross_enterprise_consent-found q rows x i b a =
    best_of-found q none (select (between q) rows) x (In-select_of (between q) rows {r = x} i b) a
