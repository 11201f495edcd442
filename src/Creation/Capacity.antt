-- ===== src/Creation/Capacity.antt =====
-- A booking that is created keeps to the capacity limits of the business.
use fielded_online.Common.{
  ℕ, ◌+◌, ◌*◌, ◌≤◌, ◌≡◌, refl, ◌⊎◌, inl, inr, Bool, true, false, ◌&&◌, List, [], ◌∷◌, ◌++◌, Option,
  none, some, All, select, ◌==◌, Bool-cases, arith,
}
use fielded_online.Common.Int.{ℤ, pos, ◌≤ℤ◌, ltb_ℤ, +ℤ_parts, -ℤ_parts}
use fielded_online.Common.Outcome.{ok, Result-cases}
use fielded_online.Store.{Store}
use fielded_online.Status.Enquiries.{EnquiryStatus}
use fielded_online.Store.Lifecycle.{Enquiry, Quote, Booking}
use fielded_online.Lifecycle.Quotes.{move_found, move_enquiry}
use fielded_online.Lifecycle.Enquiries.{find_enquiry}
use fielded_online.Status.Enquiries
use fielded_online.Brain.Values.{Value}
use fielded_online.Availability.Times.{DateTime, hour_length, half_minutes}
use fielded_online.Availability.Checks.{
  RuleType, capacity_limit, Setting, value, absent, malformed, RuleSettings, is_live, is_near,
  count_near, window_or_hour,
}
use fielded_online.Availability.Evaluator.{AvailabilityRule, conditions_hold, evaluate_availability}
use fielded_online.Availability.Admitted.{
  AdmitsTime, AdmitsIf, Admits, HasRoomNear, evaluate_availability_iff,
}
use fielded_online.Creation.Directory.{
  Directory, BrainVersion, ServiceOffer, resolve_active_brain_version, availability_rules,
  booking_data, find_offer,
}
use fielded_online.Creation.Slots.{
  is_around, existing_bookings, availability_of, check_quote_slot, check_slot, rules_of_version,
}
use fielded_online.Creation.Checks.{resolve_accepted_quote}
use fielded_online.Creation.Bookings.{new_booking, add_booking, insert_booking, create_booking}

-- The bookings of a business.
abbrev pub bookings_of : ℕ → List Booking → List Booking
bookings_of business bookings = select (λ b. b.business_id == business) bookings

is_near-around :
    (half : ℤ) (t : ℕ) (b : Booking)
    → half ≤ℤ pos (12 * hour_length)
    → is_near half t b ≡ true
    → is_around t b ≡ true
is_near-around half t b short h = ground (
  arith,
  +ℤ_parts (pos t) half,
  -ℤ_parts (pos t) half,
  +ℤ_parts (pos t) (pos (12 * hour_length)),
  -ℤ_parts (pos t) (pos (12 * hour_length)),
)

count_near-existing :
    (business : ℕ) (half : ℤ) (t : DateTime) (bookings : List Booking)
    → half ≤ℤ pos (12 * hour_length)
    → count_near half t.instant
        (select (λ b. (b.business_id == business) && is_around t.instant b && is_live b) bookings)
      ≡ count_near half t.instant (bookings_of business bookings)
count_near-existing business half t [] short = refl
count_near-existing business half t (b ∷ bookings) short = ground (
  arith,
  is_near-around half t.instant b short,
  count_near-existing business half t bookings short,
)

count_near-append :
    (business : ℕ) (half : ℤ) (t : ℕ) (bookings : List Booking) (b : Booking)
    → count_near half t (bookings_of business (bookings ++ (b ∷ [])))
      ≤ count_near half t (bookings_of business bookings) + 1
count_near-append business half t [] b = ground arith
count_near-append business half t (x ∷ bookings) b =
    ground (arith, count_near-append business half t bookings b)

-- At most the maximum in the window, unless the window is longer than a day.
abbrev pub IsKept : Setting → Option ℤ → ℕ → List Booking → Type 0
IsKept max none t bookings = Unit
IsKept (value max) (some window) t bookings =
    (ltb_ℤ (pos (12 * hour_length)) (half_minutes window) ≡ true)
    ⊎ (pos (count_near (half_minutes window) t bookings) ≤ℤ max)
IsKept absent (some window) t bookings = Unit
IsKept malformed (some window) t bookings = Unit

abbrev pub is_capacity_limit : RuleType → Bool
is_capacity_limit r = elim r [ capacity_limit ↦ true | _ ↦ false ]

-- A capacity_limit whose conditions hold is kept.
abbrev pub KeepsIf :
    Directory → Value → AvailabilityRule → Option RuleSettings → ℕ → List Booking → Type 0
KeepsIf d context_data rule none t bookings = Unit
KeepsIf d context_data rule (some r) t bookings =
    (conditions_hold d.python (some context_data) r.conditions ≡ some false)
    ⊎ (conditions_hold d.python (some context_data) r.conditions ≡ none)
    ⊎ (is_capacity_limit rule.rule_type ≡ false)
    ⊎ IsKept r.max_capacity (window_or_hour r.time_window_minutes) t bookings

abbrev pub KeepsCapacity : Directory → Value → ℕ → List Booking → AvailabilityRule → Type 0
KeepsCapacity d context_data t bookings rule =
    (rule.is_active ≡ false) ⊎ KeepsIf d context_data rule rule.settings t bookings

abbrev pub KeepsAll : Directory → Value → ℕ → List Booking → Option BrainVersion → Type 0
KeepsAll d context_data t bookings none = Unit
KeepsAll d context_data t bookings (some v) =
    All (KeepsCapacity d context_data t bookings) (availability_rules v)

module _ (business : ℕ) (t : DateTime) (s : Store) (b : Booking) where
  abbrev after : List Booking
  after = bookings_of business (s.bookings ++ (b ∷ []))

  HasRoomNear-IsKept :
      (max : Setting) (window : Option ℤ)
      → HasRoomNear max window t.instant (existing_bookings business t s)
      → IsKept max window t.instant after
  unfolding existing_bookings
  HasRoomNear-IsKept max none h = tt
  HasRoomNear-IsKept absent (some window) h = tt
  HasRoomNear-IsKept malformed (some window) h = tt
  HasRoomNear-IsKept (value max) (some window) h =
      let half = half_minutes window in
      elim (Bool-cases (ltb_ℤ (pos (12 * hour_length)) half)) [
        | inl long ↦ inl long
        | inr short ↦ inr (
            ground (
              arith,
              count_near-existing business half t s.bookings (ground arith),
              count_near-append business half t.instant s.bookings b,
            ))
      ]

  Admits-IsKept :
      (r : RuleType) (d : RuleSettings) (now : ℕ)
      → Admits r d t now (existing_bookings business t s)
      → (is_capacity_limit r ≡ false)
        ⊎ IsKept d.max_capacity (window_or_hour d.time_window_minutes) t.instant after
  Admits-IsKept capacity_limit d now h =
      inr (HasRoomNear-IsKept d.max_capacity (window_or_hour d.time_window_minutes) h)
  Admits-IsKept RuleType.blackout_period d now h = inl refl
  Admits-IsKept RuleType.operating_hours d now h = inl refl
  Admits-IsKept RuleType.minimum_notice d now h = inl refl
  Admits-IsKept RuleType.maximum_advance d now h = inl refl
  Admits-IsKept RuleType.concurrent_limit d now h = inl refl
  Admits-IsKept RuleType.slot_configuration d now h = inl refl
  Admits-IsKept RuleType.unlisted d now h = inl refl

  AdmitsTime-KeepsCapacity :
      (d : Directory) (context_data : Value) (now : ℕ) (rule : AvailabilityRule)
      (settings : Option RuleSettings)
      → AdmitsIf d.python (some context_data) t now (existing_bookings business t s) rule settings
      → KeepsIf d context_data rule settings t.instant after
  AdmitsTime-KeepsCapacity d context_data now rule none h = tt
  AdmitsTime-KeepsCapacity d context_data now rule (some r) (inl h) = inl h
  AdmitsTime-KeepsCapacity d context_data now rule (some r) (inr (inl h)) = inr (inl h)
  AdmitsTime-KeepsCapacity d context_data now rule (some r) (inr (inr h)) =
      inr (inr (Admits-IsKept rule.rule_type r now h))

  All-KeepsCapacity :
      (d : Directory) (context_data : Value) (now : ℕ) (rules : List AvailabilityRule)
      → All (AdmitsTime d.python (some context_data) t now (existing_bookings business t s)) rules
      → All (KeepsCapacity d context_data t.instant after) rules
  All-KeepsCapacity d context_data now [] h = tt
  All-KeepsCapacity d context_data now (rule ∷ rules) (inl off, hs) =
      (inl off, All-KeepsCapacity d context_data now rules hs)
  All-KeepsCapacity d context_data now (rule ∷ rules) (inr h, hs) = (
    inr (AdmitsTime-KeepsCapacity d context_data now rule rule.settings h),
    All-KeepsCapacity d context_data now rules hs,
  )

  KeepsAll-available :
      (d : Directory) (context_data : Value) (now : ℕ) (v : Option BrainVersion)
      → (evaluate_availability d.python
          (rules_of_version v)
          (some context_data)
          t
          now
          (existing_bookings business t s)).available
        ≡ true
      → KeepsAll d context_data t.instant after v
  KeepsAll-available d context_data now none h = tt
  KeepsAll-available d context_data now (some v) h =
      All-KeepsCapacity d context_data now (availability_rules v) (
        (evaluate_availability_iff d.python v.id (availability_rules v) (some context_data) t now
            (existing_bookings business t s)).0
          h)

move_found-bookings :
    (before after' : EnquiryStatus) (e : Option Enquiry) (s : Store)
    → (move_found before after' e s).bookings ≡ s.bookings
move_found-bookings before after' e s = ground arith

module _ (d : Directory) (now customer : ℕ) (t : DateTime) (s : Store) where
  -- The offer of the quote exists, and the time is available to the business.
  abbrev IsAvailable : Quote → Type 0
  IsAvailable quote =
      (offer : ServiceOffer) × (find_offer quote.service_offer_id d ≡ ok offer)
      × ((availability_of d now quote.business_id
            (booking_data d quote.business_id offer customer t) t s).available
          ≡ true)

  check_quote_slot-IsAvailable :
      (q quote : Quote)
      → check_quote_slot d now customer t s q ≡ ok quote
      → (q ≡ quote) × IsAvailable q
  unfolding check_quote_slot
  check_quote_slot-IsAvailable q quote h = elim (Result-cases (find_offer q.service_offer_id d)) [
    | inl (offer, f) ↦
        let context_data = booking_data d q.business_id offer customer t in
        elim (Bool-cases (availability_of d now q.business_id context_data t s).available) [
          | inl open_slot ↦ (ground arith, (offer, f, open_slot))
          | inr taken ↦ absurd (ground arith)
        ]
    | inr (e, f) ↦ absurd (ground arith)
  ]

  check_slot-IsAvailable :
      (quote_id : ℕ) (quote : Quote)
      → check_slot d now customer quote_id t s ≡ ok quote
      → IsAvailable quote
  unfolding check_slot
  check_slot-IsAvailable quote_id quote h =
      elim (Result-cases (resolve_accepted_quote quote_id customer s)) [
        | inl (q, r) ↦
            let (e, found) = check_quote_slot-IsAvailable q quote (rw r at h) in rw (← e) found
        | inr (e, r) ↦ absurd (ground arith)
      ]

  -- When create_booking returns, the booking's offer exists, and for each active capacity_limit of the
  -- active brain version whose conditions hold and whose window is at most a day, the bookings of the
  -- business in the window around the new one that are not cancelled, declined or expired, itself
  -- included, are at most the maximum.
  pub create_booking-KeepsAll :
      (quote_id : ℕ) (b : Booking) (s' : Store)
      → create_booking d now customer quote_id t s ≡ (ok b, s')
      → (offer : ServiceOffer) × (find_offer b.service_offer_id d ≡ ok offer)
        × KeepsAll d
            (booking_data d b.business_id offer customer t)
            t.instant
            (bookings_of b.business_id s'.bookings)
            (resolve_active_brain_version b.business_id d)
  unfolding create_booking insert_booking availability_of move_enquiry
  create_booking-KeepsAll quote_id b s' h =
      elim (Result-cases (check_slot d now customer quote_id t s)) [
        | inl (quote, c) ↦
            let (offer, f, free) = check_slot-IsAvailable quote_id quote c in
            let made : new_booking customer t quote s ≡ b = ground arith in
            let kept =
              KeepsAll-available quote.business_id t s b d _ now
                (resolve_active_brain_version quote.business_id d) free in
            let offered : b.service_offer_id ≡ quote.service_offer_id = ground arith in
            let owned : b.business_id ≡ quote.business_id = ground arith in
            let rows : s'.bookings ≡ s.bookings ++ (b ∷ []) = ground (
              arith,
              move_found-bookings Enquiries.customer_accepted Enquiries.booking_proposed
                  (find_enquiry quote.enquiry_id (add_booking b s)) (add_booking b s),
            ) in
            (offer, rw offered f, rw (owned, rows) kept)
        | inr (e, c) ↦ absurd (ground arith)
      ]
