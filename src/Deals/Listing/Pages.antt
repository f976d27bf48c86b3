-- ===== src/Deals/Listing/Pages.antt =====
-- The order of the listing, and its pages.
use deal_screening_agent.Prelude.{ℕ, List, map}
use deal_screening_agent.Deals.Listing.{Query, drop, limited, listing}
use deal_screening_agent.Models.Deal.{Deal}
use deal_screening_agent.Deals.Db.{Db}
use deal_screening_agent.Deals.Decisions.{DealCard, build_deal_card}

module _ {F : Type 0} (q : Query) (scan : List Deal → List Deal) (tenant_id : ℕ) (db : Db F) where
  abbrev page : ℕ → ℕ → List DealCard
  page limit offset =
      map (λ deal. build_deal_card deal db)
        (limited limit (drop offset (listing q scan tenant_id db)))
