-- ===== src/Forward/Search.antt =====
-- store/_sqlite.py: the units nearest to a query's vector, with their scope.
use th_layer_agent.Common.{
  given, ℕ, String, Bool, false, not, Option, none, some, List, [], ◌∷◌, ◌==◌, if◌then◌else◌, take,
  nat_eq, length,
}
use th_layer_agent.Reputation.{or_default}
use th_layer_agent.Sql.{select, order_by}

-- What is read of a unit's JSON.
pub record StoredUnit : Type 0 where
  pub id : String
  pub summary : String
  pub detail : String
  pub action : String
  pub domains : List String
  pub confidence : ℕ

-- numpy's vectors: those without elements, those of norm 0, the cosine of two others (`none` is the
-- ValueError of two lengths), and the order of two cosines.
pub record Vectors : Type 1 where
  pub Vec : Type 0
  pub Sim : Type 0
  pub is_empty : Vec → Bool
  pub is_zero : Vec → Bool
  pub cosine : Vec → Vec → Option Sim
  pub at_least : Sim → Sim → Bool

module _ (v : Vectors) where
  -- One row of `knowledge_units`, in the columns that are read; the JSON of `data` as the unit it holds.
  pub record Row : Type 0 where
    pub unit : StoredUnit
    pub embedding : Option v.Vec
    pub enterprise_id : Option String
    pub group_id : Option String
    pub cross_group_allowed : Option ℕ
    pub status : String

  pub record Hit : Type 0 where
    pub unit : StoredUnit
    pub similarity : v.Sim
    pub enterprise_id : String
    pub group_id : String
    pub cross_group_allowed : Bool

  -- `bool(int(x or 0))`
  abbrev pub flag : Option ℕ → Bool
  flag none = false
  flag (some n) = not (nat_eq n 0)

  abbrev pub hit_of : Row → v.Sim → Hit
  hit_of r sim = record {
    unit = r.unit;
    similarity = sim;
    enterprise_id = or_default (given r.enterprise_id) "default-enterprise";
    group_id = or_default (given r.group_id) "default-group";
    cross_group_allowed = flag r.cross_group_allowed;
  }

  -- one row of the loop: none where it is passed over
  unfoldable pub score_row : v.Vec → Row → Option (Option Hit)
  score_row query r = elim r.embedding [
    | none ↦ some none
    | some vec ↦
        if v.is_empty vec
        then some none
        else if v.is_zero vec
        then some none
        else elim (v.cosine query vec) [ none ↦ none | some sim ↦ some (some (hit_of r sim)) ]
  ]

  -- the loop; `none` is its exception
  unfoldable pub score_rows : v.Vec → List Row → Option (List Hit)
  unfolding score_row
  score_rows query [] = some []
  score_rows query (r ∷ rows) =
      let rest = score_rows query rows in
      elim (score_row query r) [
        | none ↦ none
        | some none ↦ rest
        | some (some hit) ↦ elim rest [ none ↦ none | some hits ↦ some (hit ∷ hits) ]
      ]

  -- status = :status AND embedding IS NOT NULL
  abbrev pub is_candidate : String → Row → Bool
  is_candidate status r = elim r.embedding [ none ↦ false | some vec ↦ r.status == status ]

  unfoldable pub semantic_query_with_scope : v.Vec → ℕ → String → List Row → Option (List Hit)
  unfolding score_rows
  semantic_query_with_scope query_vec limit status units =
      let rows = select (is_candidate status) units in
      if nat_eq (length rows) 0
      then some []
      else if v.is_zero query_vec
      then some []
      else elim (score_rows query_vec rows) [
        | none ↦ none
        | some scored ↦
            some (take limit (order_by (λ a b. v.at_least a.similarity b.similarity) scored))
      ]
