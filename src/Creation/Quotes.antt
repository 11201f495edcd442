-- ===== src/Creation/Quotes.antt =====
-- QuoteService.create_quote: the price and the fee of an enquiry. Amounts go from millionths to the
-- hundredths of the column.
use fielded_online.Common.{ℕ, suc, ◌/◌, [], ◌∷◌, ◌++◌, Option, none, some, length}
use fielded_online.Common.Int.{ℤ, pos, negsuc}
use fielded_online.Common.Decimal.{minus}
use fielded_online.Common.Outcome.{Action, Result, ok, err, pure, continue, modify, ◌>>◌}
use fielded_online.Status.Enquiries
use fielded_online.Status.Quotes
use fielded_online.Store.{Store}
use fielded_online.Store.Lifecycle.{Enquiry, Quote}
use fielded_online.Lifecycle.Enquiries.{save_enquiry}
use fielded_online.Commercial.Fees.{FeeResult}
use fielded_online.Commercial.Resolution.{calculate_fee}
use fielded_online.Pricing.Engine.{PricingResult}
use fielded_online.Creation.Directory.{Directory}
use fielded_online.Creation.Checks.{check_quote}

abbrev pub to_hundredths : ℤ → ℤ
to_hundredths (pos n) = pos (n / 10000)
to_hundredths (negsuc n) = minus (suc n / 10000)

-- A fee that cannot be calculated is left out.
abbrev pub evidence : Result FeeResult → Option ℤ
evidence (ok f) = some (to_hundredths f.platform_fee)
evidence (err e) = none

abbrev pub new_quote : Directory → ℕ → Enquiry → PricingResult → Store → Quote
new_quote d now enquiry result s = record {
  id = length s.quotes;
  customer_id = enquiry.customer_id;
  business_id = enquiry.business_id;
  enquiry_id = enquiry.id;
  service_offer_id = enquiry.service_offer_id;
  amount = to_hundredths result.amount;
  currency = result.currency;
  status = Quotes.draft;
  fee_evidence =
      evidence
        (calculate_fee now enquiry.business_id result.amount result.currency none none d.policies);
}

abbrev pub add_quote : Quote → Store → Store
add_quote q s = record s { quotes = s.quotes ++ (q ∷ []) }

unfoldable pub insert_quote : Directory → ℕ → Enquiry × PricingResult → Action Store Quote
insert_quote d now (enquiry, result) s =
    (do
      let quote = new_quote d now enquiry result s
      modify (add_quote quote)
      modify (save_enquiry (record enquiry { status = Enquiries.quoted }))
      pure quote)
      s

unfoldable pub create_quote : Directory → ℕ → ℕ → ℕ → Action Store Quote
create_quote d now business_id enquiry_id s =
    continue (insert_quote d now) (check_quote d business_id enquiry_id s) s
