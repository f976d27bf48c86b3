-- ===== src/Deals/Listing.antt =====
-- The route list_deals of src/app/api/deals.py. Nothing in its query orders deals with equal keys:
-- they come in the order in which the database reads the rows for that query (`scan`).
pub mod Order
pub mod Pages
pub mod Ties
use deal_screening_agent.Prelude.{
  leb, ◌==◌, if◌then◌else◌, or_default, select, ℕ, zero, suc, max, String, Bool, true, false, ◌&&◌,
  Option, none, some, List, [], ◌∷◌, map, str_eq,
}
use deal_screening_agent.Prelude.Exec.{ok, err, Exec}
use deal_screening_agent.Models.Enums.{DealStatus, is_status}
use deal_screening_agent.Models.Deal.{Deal, DealScore}
use deal_screening_agent.Deals.Db.{Db, DealError, http_error}
use deal_screening_agent.Deals.Decisions.{DealCard, build_deal_card}

-- The query parameters.
pub record Query : Type 0 where
  pub status_filter : Option DealStatus
  pub sort_by : String
  pub sort_order : String

abbrev has_status : Option DealStatus → Deal → Bool
has_status none deal = true
has_status (some s) deal = is_status deal.status s

-- `func.max`, with no value for a deal without scores
unfoldable pub max_score : {F : Type 0} → ℕ → List (DealScore F) → Option ℕ
max_score deal_id [] = none
max_score deal_id (s ∷ scores) =
    let rest = max_score deal_id scores in
    if s.deal_id == deal_id then some (max s.score (or_default rest 0)) else rest

-- may a row with the first key come before one with the second: nulls last
unfoldable pub precedes : Bool → Option ℕ → Option ℕ → Bool
precedes ascending a none = true
precedes ascending none (some b) = false
precedes ascending (some a) (some b) = if ascending then leb a b else leb b a

module _ {A : Type 0} (before : A → A → Bool) where
  unfoldable pub insert : A → List A → List A
  insert x [] = x ∷ []
  insert x (y ∷ ys) = let rest = insert x ys in if before x y then x ∷ y ∷ ys else y ∷ rest

  unfoldable pub ordered : List A → List A
  unfolding insert
  ordered [] = []
  ordered (x ∷ xs) = insert x (ordered xs)

-- LIMIT and OFFSET
unfoldable pub drop : {A : Type 0} → ℕ → List A → List A
drop zero xs = xs
drop (suc n) [] = []
drop (suc n) (x ∷ xs) = drop n xs

unfoldable pub limited : {A : Type 0} → ℕ → List A → List A
limited zero xs = []
limited (suc n) [] = []
limited (suc n) (x ∷ xs) = x ∷ limited n xs

abbrev pub is_listed : Query → ℕ → Deal → Bool
is_listed q tenant_id deal = deal.tenant_id == tenant_id && has_status q.status_filter deal

module _ {F : Type 0} where
  abbrev pub order_key : Query → Db F → Deal → Option ℕ
  order_key q db deal =
      if str_eq q.sort_by "score" then max_score deal.id db.scores else some deal.created_at

  abbrev pub comes_before : Query → Db F → Deal → Deal → Bool
  comes_before q db a b = precedes (str_eq q.sort_order "asc") (order_key q db a) (order_key q db b)

  -- the deals of all pages
  unfoldable pub listing : Query → (List Deal → List Deal) → ℕ → Db F → List Deal
  unfolding ordered max_score precedes
  listing q scan tenant_id db =
      ordered (comes_before q db) (scan (select (is_listed q tenant_id) db.deals))

  -- The bounds of the parameters are the framework's, which answers 422.
  unfoldable pub list_deals :
      Query → (List Deal → List Deal) → ℕ → ℕ → ℕ → Exec (Db F) DealError (List DealCard)
  unfolding listing limited drop build_deal_card
  list_deals q scan limit offset tenant_id db =
      if leb 1 limit && leb limit 200
      then (
        ok (
            map (λ deal. build_deal_card deal db)
              (limited limit (drop offset (listing q scan tenant_id db)))),
        db,
      )
      else (err (http_error 422), db)
