-- ===== src/Tests/Creation.antt =====
-- The creation of an enquiry, a quote and a booking at concrete inputs.
use fielded_online.Common.{◌≡◌, refl, true, [], ◌∷◌, none, some, All, ◌↔◌}
use fielded_online.Common.Int.{pos, ◌+ℤ◌, ◌-ℤ◌}
use fielded_online.Common.Decimal.{quantize, scaled}
use fielded_online.Common.Outcome.{ok}
use fielded_online.Status.Enquiries
use fielded_online.Status.Quotes
use fielded_online.Status.Bookings
use fielded_online.Store.{Store, emit_outbox_event}
use fielded_online.Store.Lifecycle.{Enquiry, Quote, Booking}
use fielded_online.Brain.Conditions.{get_required_fields, evaluate_conditions}
use fielded_online.Brain.Evaluator.{
  evaluate, evaluate_rule, insert_by_type, conflicts_within, extract_outcome, distinct,
}
use fielded_online.Pricing.Rules.{BusinessRule, RuleType}
use fielded_online.Pricing.Rules
use fielded_online.Pricing.Engine.{
  PricingResult, PricingModel, calculate_price, resolve_base_amount, base_amount, price_result,
  bounded_amount, apply_rules, apply_rule, total,
}
use fielded_online.Commercial.FeeBounds.{cents}
use fielded_online.Availability.Times.{DateTime}
use fielded_online.Availability.Checks.{
  Setting, value, absent, RuleSettings, is_blocked, check_capacity, check_operating_hours,
}
use fielded_online.Availability.Checks
use fielded_online.Availability.Evaluator.{evaluate_availability, check_rules}
use fielded_online.Availability.Admitted.{AdmitsTime, evaluate_availability_iff}
use fielded_online.Creation.Directory
use fielded_online.Creation.Directory.{
  Directory, ServiceOffer, Listing, BrainVersion, RuleRow, find_offer, resolve_active_brain_version,
  booking_data,
}
use fielded_online.Creation.Enquiries.{create_enquiry, submit_enquiry}
use fielded_online.Creation.Granted.{IsGranted, IsSubmitted, create_enquiry-IsGranted}
use fielded_online.Creation.Quotes.{create_quote, insert_quote}
use fielded_online.Creation.Quoted.{IsPriced, IsQuoted, create_quote-IsQuoted}
use fielded_online.Creation.Bookings.{create_booking, insert_booking}
use fielded_online.Creation.Capacity.{KeepsAll, bookings_of, create_booking-KeepsAll}
use fielded_online.Tests.Sample.{gbp, sample_store, sample_payment, sample_enquiry, sample_quote}
use fielded_online.Tests.Brains.{py}
use fielded_online.Tests.Prices.{by_the_hour}
use fielded_online.Creation.Checks.{
  check_enquiry, validate_business_eligible, validate_service_offer_eligible,
  evaluate_brain_for_enquiry, check_quote, resolve_enquiry, price_enquiry, price_of_enquiry,
  resolve_accepted_quote,
}
use fielded_online.Commercial.Resolution.{
  calculate_fee, resolve_effective_policy, sort_policies, global_default_policy,
}
use fielded_online.Creation.Slots.{check_slot, check_quote_slot, availability_of, existing_bookings}

abbrev settings : RuleSettings
settings = record {
  conditions = [];
  start_date = none;
  end_date = none;
  day_of_week = some 3;
  open_time = value (pos 0);
  close_time = value (pos 600);
  break_start = absent;
  break_end = absent;
  notice = absent;
  advance = absent;
  max_capacity = value (pos 2);
  time_window_minutes = value (pos 60);
  max_concurrent = absent;
}

-- One row with a rule for each evaluator: it allows, it adds a surcharge of 10.00, and it admits two
-- bookings in an hour.
abbrev row : RuleRow
row = record {
  decides = record {
    id = 1;
    rule_type = 1;
    is_active = true;
    priority = 0;
    rule_data = some (record { conditions = []; actions = [] });
  };
  prices = record {
    id = 1;
    rule_type = Rules.surcharge;
    is_active = true;
    conditions = [];
    percentage = none;
    amount = some (cents 1000);
    max_discount = none;
    minimum_amount = none;
    maximum_amount = none;
  };
  admits = record {
    id = 1;
    rule_type = Checks.capacity_limit;
    is_active = true;
    settings = some settings;
  };
}

abbrev directory : Directory
directory = record {
  listings =
      record {
        id = 1;
        status = Directory.BusinessStatus.active;
        public_status = some Directory.BusinessProfileStatus.active;
        currency = some gbp;
      }
      ∷ [];
  offers =
      record {
        id = 4;
        business_id = 1;
        name = 99 ∷ [];
        delivery_mode = [];
        pricing_model = PricingModel.hourly;
        pricing_config = by_the_hour;
        status = Directory.ServiceOfferStatus.active;
      }
      ∷ [];
  brains = record { business_id = 1; active_version_id = some 7 } ∷ [];
  versions = record { id = 7; rules = row ∷ [] } ∷ [];
  policies = [];
  python = py;
  uuid_str = λ i. i ∷ [];
  isoformat = λ t. [];
  model_str = λ m. [];
}

abbrev base : Store
base = sample_store sample_payment

abbrev no_enquiries : Store
no_enquiries = record base { enquiries = [] }

abbrev enquired : Enquiry
enquired = record sample_enquiry { id = 0 }

abbrev after_enquiry : Store
after_enquiry = (create_enquiry directory 70 2 1 4 no_enquiries).1

enquired-returns : create_enquiry directory 70 2 1 4 no_enquiries ≡ (ok enquired, after_enquiry)
unfolding create_enquiry check_enquiry validate_business_eligible validate_service_offer_eligible
    evaluate_brain_for_enquiry evaluate evaluate_rule get_required_fields evaluate_conditions
    insert_by_type conflicts_within extract_outcome distinct submit_enquiry emit_outbox_event
enquired-returns = refl

abbrev received : Store
received = record base { enquiries = record sample_enquiry { status = Enquiries.received } ∷ [] }

abbrev after_quote : Store
after_quote = (create_quote directory 70 1 20 received).1

abbrev quoted : Quote
quoted = record sample_quote { id = 1; amount = pos 9000; status = Quotes.draft }

quoted-returns : create_quote directory 70 1 20 received ≡ (ok quoted, after_quote)
unfolding create_quote check_quote resolve_enquiry price_enquiry price_of_enquiry calculate_price
    resolve_base_amount base_amount insert_quote price_result calculate_fee quantize bounded_amount
    apply_rules evaluate_conditions apply_rule Rules.apply_pricing_rule ◌-ℤ◌ ◌+ℤ◌ scaled total
    Rules.calculate_surcharge resolve_effective_policy sort_policies global_default_policy
quoted-returns = refl

abbrev accepted : Store
accepted = record base { quotes = record sample_quote { status = Quotes.accepted } ∷ [] }

abbrev slot : DateTime
slot = record { instant = 100; wall = 100 }

abbrev after_booking : Store
after_booking = (create_booking directory 70 2 21 slot accepted).1

abbrev booked : Booking
booked = record {
  id = 1;
  customer_id = 2;
  business_id = 1;
  quote_id = 21;
  enquiry_id = 20;
  service_offer_id = 4;
  requested_at = 100;
  currency = gbp;
  status = Bookings.requested;
}

booked-returns : create_booking directory 70 2 21 slot accepted ≡ (ok booked, after_booking)
unfolding create_booking check_slot resolve_accepted_quote check_quote_slot availability_of
    evaluate_availability check_rules evaluate_conditions is_blocked check_capacity
    existing_bookings ◌-ℤ◌ ◌+ℤ◌ evaluate evaluate_rule get_required_fields insert_by_type
    conflicts_within extract_outcome distinct insert_booking
booked-returns = refl

create_enquiry-IsGranted_example :
    (business : Listing) × (offer : ServiceOffer) × IsGranted directory 70 2 1 4 business offer
    × IsSubmitted directory 70 2 1 4 no_enquiries after_enquiry enquired
create_enquiry-IsGranted_example =
    create_enquiry-IsGranted directory 70 2 1 4 no_enquiries after_enquiry enquired refl
      enquired-returns

create_quote-IsQuoted_example :
    (enquiry : Enquiry) × (r : PricingResult) × IsPriced directory 70 1 20 received enquiry r
    × IsQuoted directory 70 1 20 received after_quote quoted enquiry
create_quote-IsQuoted_example =
    create_quote-IsQuoted directory 70 1 20 received quoted after_quote quoted-returns

create_booking-KeepsAll_example :
    (offer : ServiceOffer) × (find_offer 4 directory ≡ ok offer)
    × KeepsAll directory
        (booking_data directory 1 offer 2 slot)
        100
        (bookings_of 1 after_booking.bookings)
        (resolve_active_brain_version 1 directory)
create_booking-KeepsAll_example =
    create_booking-KeepsAll directory 70 2 slot accepted 21 booked after_booking booked-returns

evaluate_availability_iff_example :
    ((evaluate_availability py (some (7, row.admits ∷ [])) none slot 70 []).available ≡ true)
    ↔ All (AdmitsTime py none slot 70 []) (row.admits ∷ [])
evaluate_availability_iff_example = evaluate_availability_iff py 7 (row.admits ∷ []) none slot 70 []
