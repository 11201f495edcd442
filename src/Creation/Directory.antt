-- ===== src/Creation/Directory.antt =====
-- The tables that creation reads and does not change: businesses with their public profile
-- (backend/app/domain/identity/models.py), service offers, the business brain with its versions, and
-- commercial policies; and how Python prints an identifier and a datetime.
use fielded_online.Common.{ℕ, List, map, Option, none, some, find, ◌==◌}
use fielded_online.Common.Outcome.{Result, not_found}
use fielded_online.Common.Check.{found_or}
use fielded_online.Store.Payments.{Currency}
use fielded_online.Commercial.Policy.{CommercialPolicy}
use fielded_online.Brain.Values.{Text, Value, Python, text, object, field, end, codes}
use fielded_online.Brain.Evaluator.{Rule}
use fielded_online.Pricing.Rules.{BusinessRule}
use fielded_online.Pricing.Engine.{PricingModel, PricingConfig}
use fielded_online.Availability.Evaluator.{AvailabilityRule}
use fielded_online.Availability.Times.{DateTime}

pub data BusinessStatus : Type 0 where
  pending active suspended deactivated : BusinessStatus

pub data BusinessProfileStatus : Type 0 where
  incomplete active suspended : BusinessProfileStatus

pub data ServiceOfferStatus : Type 0 where
  draft active paused archived : ServiceOfferStatus

-- A business, joined with its profile if there is one.
pub record Listing : Type 0 where
  pub id : ℕ
  pub status : BusinessStatus
  pub public_status : Option BusinessProfileStatus
  pub currency : Option Currency

pub record ServiceOffer : Type 0 where
  pub id : ℕ
  pub business_id : ℕ
  pub name : Text
  pub delivery_mode : Text
  pub pricing_model : PricingModel
  pub pricing_config : PricingConfig
  pub status : ServiceOfferStatus

pub record BusinessBrain : Type 0 where
  pub business_id : ℕ
  pub active_version_id : Option ℕ

-- One row of the rules, as each of the three evaluators reads its `rule_data`.
pub record RuleRow : Type 0 where
  pub decides : Rule
  pub prices : BusinessRule
  pub admits : AvailabilityRule

pub record BrainVersion : Type 0 where
  pub id : ℕ
  pub rules : List RuleRow

pub record Directory : Type 1 where
  pub listings : List Listing
  pub offers : List ServiceOffer
  pub brains : List BusinessBrain
  pub versions : List BrainVersion
  pub policies : List CommercialPolicy
  pub python : Python
  pub uuid_str : ℕ → Text
  pub isoformat : DateTime → Text
  pub model_str : PricingModel → Text

abbrev pub find_listing : ℕ → Directory → Option Listing
find_listing i d = find (λ b. b.id == i) d.listings

-- _resolve_service_offer
abbrev pub find_offer : ℕ → Directory → Result ServiceOffer
find_offer i d = found_or (find (λ o. o.id == i) d.offers) not_found

-- get_by_business_id of the brain, and its active version's id.
abbrev pub id_of_active : Option BusinessBrain → Option ℕ
id_of_active none = none
id_of_active (some brain) = brain.active_version_id

abbrev pub active_version_id : ℕ → Directory → Option ℕ
active_version_id business d = id_of_active (find (λ b. b.business_id == business) d.brains)

abbrev pub find_version : Option ℕ → Directory → Option BrainVersion
find_version none d = none
find_version (some i) d = find (λ v. v.id == i) d.versions

-- _resolve_active_brain_version
abbrev pub resolve_active_brain_version : ℕ → Directory → Option BrainVersion
resolve_active_brain_version business d = find_version (active_version_id business d) d

abbrev pub decision_rules : BrainVersion → List Rule
decision_rules v = map (λ r. r.decides) v.rules

abbrev pub pricing_rules : BrainVersion → List BusinessRule
pricing_rules v = map (λ r. r.prices) v.rules

abbrev pub availability_rules : BrainVersion → List AvailabilityRule
availability_rules v = map (λ r. r.admits) v.rules

-- context_data["service_offer"]
unfoldable pub offer_data : Directory → ServiceOffer → Value
offer_data d offer = object (
    field (codes "pricing_model") (text (d.model_str offer.pricing_model)) (
      field (codes "delivery_mode") (text offer.delivery_mode)
        (field (codes "name") (text offer.name) end)))

-- The context of an enquiry and of a quote.
unfoldable pub transaction_data : Directory → ℕ → ServiceOffer → ℕ → Value
unfolding offer_data
transaction_data d business offer customer = object (
    field (codes "business_id") (text (d.uuid_str business)) (
      field (codes "service_offer_id") (text (d.uuid_str offer.id)) (
        field (codes "customer_id") (text (d.uuid_str customer))
          (field (codes "service_offer") (offer_data d offer) end))))

-- The context of a booking.
unfoldable pub booking_data : Directory → ℕ → ServiceOffer → ℕ → DateTime → Value
unfolding offer_data
booking_data d business offer customer requested_at = object (
    field (codes "business_id") (text (d.uuid_str business)) (
      field (codes "service_offer_id") (text (d.uuid_str offer.id)) (
        field (codes "customer_id") (text (d.uuid_str customer)) (
          field (codes "requested_at") (text (d.isoformat requested_at))
            (field (codes "service_offer") (offer_data d offer) end)))))
