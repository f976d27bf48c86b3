-- ===== src/Deals/Configs.antt =====
-- src/app/api/criteria.py: versioned criteria configs, and the re-scoring that a new one triggers.
pub mod Versions
use deal_screening_agent.Prelude.{
  leb, ◌==◌, select, update, latest, ℕ, ◌+◌, String, Bool, true, false, ◌&&◌, Option, none, some,
  List, [], ◌∷◌, ◌++◌, map,
}
use deal_screening_agent.Prelude.Exec.{ok, err, Exec}
use deal_screening_agent.Float.{Float}
use deal_screening_agent.Models.Enums.{extracted, is_status}
use deal_screening_agent.Models.Deal.{Deal}
use deal_screening_agent.Models.Criteria.{Criterion, CriteriaConfig}
use deal_screening_agent.Scoring.Evaluator.{Text}
use deal_screening_agent.Deals.Db.{Db, DealError, http_error}
use deal_screening_agent.Deals.Listing.{ordered}
use deal_screening_agent.Deals.Scores.{load_active_config, score_deal}

-- the ids of the deals that are re-scored
abbrev pub rescored_ids : ℕ → List Deal → List ℕ
rescored_ids tenant_id deals =
    map (λ d. d.id) (select (λ d. d.tenant_id == tenant_id && is_status d.status extracted) deals)

module _ {F : Type 0} where
  abbrev pub of_tenant : ℕ → CriteriaConfig F → Bool
  of_tenant tenant_id c = c.tenant_id == tenant_id

  abbrev pub version_of : Option (CriteriaConfig F) → ℕ
  version_of none = 0
  version_of (some c) = c.version

  -- `version or 0`
  unfoldable pub get_latest_version : ℕ → List (CriteriaConfig F) → ℕ
  get_latest_version tenant_id configs =
      version_of (latest (λ c. c.version) (select (of_tenant tenant_id) configs))

  abbrev pub is_active_of : ℕ → CriteriaConfig F → Bool
  is_active_of tenant_id c = of_tenant tenant_id c && c.is_active

  abbrev pub deactivated : CriteriaConfig F → CriteriaConfig F
  deactivated c = record c { is_active = false }

  -- the configs after a new one is created
  unfoldable pub add_config :
      ℕ → ℕ → String → List (Criterion F) → List (CriteriaConfig F) → List (CriteriaConfig F)
  unfolding get_latest_version
  add_config config_id tenant_id name criteria configs =
      update (is_active_of tenant_id) deactivated configs
      ++ record {
        id = config_id;
        tenant_id = tenant_id;
        version = get_latest_version tenant_id configs + 1;
        is_active = true;
        name = name;
        criteria = criteria;
      }
        ∷ []

  -- ORDER BY version DESC
  unfoldable pub get_config_history : ℕ → Db F → List (CriteriaConfig F)
  unfolding ordered
  get_config_history tenant_id db =
      ordered (λ a b. leb b.version a.version) (select (of_tenant tenant_id) db.configs)

  unfoldable pub get_active_config : ℕ → Exec (Db F) DealError (CriteriaConfig F)
  unfolding load_active_config
  get_active_config tenant_id db = elim (load_active_config tenant_id db.configs) [
    | none ↦ (err (http_error 404), db)
    | some c ↦ (ok c, db)
  ]

module _ (fl : Float) (tx : Text fl.F) where
  open fl use {F}

  -- A deal whose scoring raises is logged and passed over. `score_id` gives a new score's id.
  unfoldable pub rescore : (ℕ → ℕ) → ℕ → ℕ → List ℕ → Db F → Db F
  unfolding score_deal
  rescore score_id now tenant_id [] db = db
  rescore score_id now tenant_id (deal_id ∷ rest) db =
      rescore score_id now tenant_id rest
        (score_deal fl tx (score_id deal_id) now deal_id tenant_id db).1

  unfoldable pub create_criteria_config :
      ℕ → (ℕ → ℕ) → ℕ → ℕ → String → List (Criterion F) → Db F → Db F
  unfolding add_config rescore
  create_criteria_config config_id score_id now tenant_id name criteria db =
      rescore score_id now tenant_id (rescored_ids tenant_id db.deals)
        (record db { configs = add_config config_id tenant_id name criteria db.configs })
