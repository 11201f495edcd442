-- ===== src/Creation/Quoted.antt =====
-- What a created quote rests on, and what its creation leaves behind.
use fielded_online.Common.{
  ℕ, ◌≡◌, inl, inr, true, List, [], ◌∷◌, ◌++◌, Option, some, find, find-some, is_in, ◌==◌, ==_iff,
  Option-cases, arith,
}
use fielded_online.Common.Int.{ℤ, pos, ◌≤ℤ◌}
use fielded_online.Common.Outcome.{ok, Result-cases}
use fielded_online.Status.Enquiries
use fielded_online.Status.Enquiries.{enquiry_status_enum}
use fielded_online.Status.Quotes
use fielded_online.Store.{Store, put_enquiry}
use fielded_online.Store.Payments.{Currency}
use fielded_online.Store.Lifecycle.{Enquiry, Quote}
use fielded_online.Lifecycle.Enquiries.{find_enquiry}
use fielded_online.Pricing.Engine.{PricingResult}
use fielded_online.Pricing.Bounds.{calculate_price-IsBounded}
use fielded_online.Creation.Directory.{Directory, ServiceOffer, find_listing, find_offer}
use fielded_online.Creation.Checks.{
  resolve_enquiry, quotable_states, price_of_enquiry, or_invalid, price_enquiry, check_quote,
}
use fielded_online.Creation.Quotes.{to_hundredths, insert_quote, create_quote}

to_hundredths-nonneg : (a : ℤ) → pos 0 ≤ℤ a → pos 0 ≤ℤ to_hundredths a
to_hundredths-nonneg a h = ground arith

priced-nonneg :
    (d : Directory) (enquiry : Enquiry) (offer : ServiceOffer) (currency : Option Currency)
    (r : PricingResult)
    → or_invalid (price_of_enquiry d enquiry offer currency) ≡ ok r
    → pos 0 ≤ℤ r.amount
unfolding price_of_enquiry
priced-nonneg d enquiry offer currency r h =
    elim (Result-cases (price_of_enquiry d enquiry offer currency)) [
      | inl (r', e) ↦
          let same : r' ≡ r = ground arith in
          rw (← same) (calculate_price-IsBounded _ _ _ _ _ r' e).nonneg
      | inr (x, e) ↦ absurd (ground arith)
    ]

price_enquiry-nonneg :
    (d : Directory) (enquiry : Enquiry) (r : PricingResult)
    → price_enquiry d enquiry ≡ ok r
    → pos 0 ≤ℤ r.amount
unfolding price_enquiry
price_enquiry-nonneg d enquiry r h = elim (Result-cases (find_offer enquiry.service_offer_id d)) [
  | inl (offer, f) ↦ elim (Option-cases (find_listing enquiry.business_id d)) [
    | inr (business, g) ↦
        elim (Result-cases (or_invalid (price_of_enquiry d enquiry offer business.currency))) [
          | inl (r', k) ↦
              let same : r' ≡ r = ground arith in
              rw (← same) (priced-nonneg d enquiry offer business.currency r' k)
          | inr (x, k) ↦ absurd (ground arith)
        ]
    | inl missing ↦ absurd (ground arith)
  ]
  | inr (x, f) ↦ absurd (ground arith)
]

-- The row of an id once it is replaced.
find-put_enquiry :
    (i : ℕ) (e e' : Enquiry) (xs : List Enquiry)
    → find (λ x. x.id == i) xs ≡ some e
    → e'.id ≡ i
    → find (λ x. x.id == i) (put_enquiry e' xs) ≡ some e'
find-put_enquiry i e e' [] h k = cc
find-put_enquiry i e e' (x ∷ xs) h k = ground (arith, find-put_enquiry i e e' xs)

module _ (d : Directory) (now business_id enquiry_id : ℕ) (s : Store) where
  -- The enquiry is the business's own and may be quoted, and the price is not negative.
  pub record IsPriced (enquiry : Enquiry) (r : PricingResult) : Type 0 where
    pub found : find_enquiry enquiry_id s ≡ some enquiry
    pub own : enquiry.business_id ≡ business_id
    pub quotable : is_in enquiry.status quotable_states ≡ true
    pub nonneg : pos 0 ≤ℤ r.amount

  check_quote-IsPriced :
      (enquiry : Enquiry) (r : PricingResult)
      → check_quote d business_id enquiry_id s ≡ ok (enquiry, r)
      → IsPriced enquiry r
  unfolding check_quote resolve_enquiry
  check_quote-IsPriced enquiry r h = record {
    found = ground arith;
    own = ground (arith, ==_iff enquiry.business_id business_id);
    quotable = ground arith;
    nonneg = price_enquiry-nonneg d enquiry r (ground arith);
  }

  -- The rows after the creation of a quote.
  pub record IsQuoted (s' : Store) (q : Quote) (enquiry : Enquiry) : Type 0 where
    pub drafted : q.status ≡ Quotes.draft
    pub of_enquiry : q.enquiry_id ≡ enquiry.id
    pub of_customer : q.customer_id ≡ enquiry.customer_id
    pub nonneg : pos 0 ≤ℤ q.amount
    pub quotes : s'.quotes ≡ s.quotes ++ (q ∷ [])
    pub enquiry_quoted :
        find_enquiry enquiry_id s' ≡ some (record enquiry { status = Enquiries.quoted })

  insert_quote-IsQuoted :
      (enquiry : Enquiry) (r : PricingResult) (q : Quote) (s' : Store)
      → IsPriced enquiry r
      → insert_quote d now (enquiry, r) s ≡ (ok q, s')
      → IsQuoted s' q enquiry
  unfolding insert_quote
  insert_quote-IsQuoted enquiry r q s' p h =
      let is_row : enquiry.id ≡ enquiry_id =
        (==_iff enquiry.id enquiry_id).0
          (find-some (λ x. x.id == enquiry_id) s.enquiries enquiry p.found) in
      let moved =
        find-put_enquiry enquiry_id enquiry (record enquiry { status = Enquiries.quoted })
          s.enquiries p.found is_row in
      record {
        drafted = ground arith;
        of_enquiry = ground arith;
        of_customer = ground arith;
        nonneg = ground (arith, to_hundredths-nonneg r.amount p.nonneg);
        quotes = ground arith;
        enquiry_quoted = ground (arith, moved);
      }

  -- When create_quote returns, the enquiry was the business's own and RECEIVED, IN_REVIEW or
  -- NEEDS_INFORMATION; the quote is a new DRAFT for the enquiry and its customer, with an amount that is
  -- not negative; and the enquiry is QUOTED.
  pub create_quote-IsQuoted :
      (q : Quote) (s' : Store)
      → create_quote d now business_id enquiry_id s ≡ (ok q, s')
      → (enquiry : Enquiry) × (r : PricingResult) × IsPriced enquiry r × IsQuoted s' q enquiry
  unfolding create_quote
  create_quote-IsQuoted q s' h = elim (Result-cases (check_quote d business_id enquiry_id s)) [
    | inl ((enquiry, r), c) ↦
        let p = check_quote-IsPriced enquiry r c in
        (enquiry, r, p, insert_quote-IsQuoted enquiry r q s' p (rw c at h))
    | inr (x, c) ↦ absurd (ground arith)
  ]
