-- ===== src/Tests/Sample.antt =====
-- A small database: one business with a connected account, one invoice of 100.00 with its ledger
-- entry, one payment of it that is PENDING, and a customer's enquiry, quote, booking and execution.
use fielded_online.Common.{true, [], ◌∷◌, none, some}
use fielded_online.Common.Int.{pos}
use fielded_online.Common.Outcome.{Result, ok, err}
use fielded_online.Status.Payments
use fielded_online.Status.Invoices
use fielded_online.Status.Enquiries
use fielded_online.Status.Quotes
use fielded_online.Status.Bookings
use fielded_online.Status.Executions
use fielded_online.Store.{Store}
use fielded_online.Store.Payments.{Business, Payment, Currency, other, active}
use fielded_online.Store.Documents.{Invoice, LedgerEntry}
use fielded_online.Store.Lifecycle.{Enquiry, Quote, Booking, ServiceExecution}
use fielded_online.Payment.Provider.{PaymentProvider}
use fielded_online.Payment.Provider
use fielded_online.Lifecycle.Completion.{Completion}

abbrev pub gbp : Currency
gbp = other 0

abbrev pub sample_business : Business
sample_business = record {
  id = 1;
  stripe_account_id = some 77;
  stripe_connect_status = active;
  stripe_charges_enabled = true;
  platform_fee_percent = 250;
}

abbrev pub sample_invoice : Invoice
sample_invoice = record {
  id = 5;
  business_id = 1;
  customer_id = 2;
  service_execution_id = 90;
  booking_id = 90;
  quote_id = none;
  invoice_number = 1;
  issue_date = 10;
  currency = gbp;
  subtotal = pos 10000;
  discount = pos 0;
  tax = pos 0;
  total = pos 10000;
  payment_status = Invoices.unpaid;
  status = Invoices.issued;
  fee_evidence = some (pos 500);
}

abbrev pub sample_entry : LedgerEntry
sample_entry = record {
  id = 6;
  business_id = 1;
  customer_id = 2;
  service_execution_id = 90;
  booking_id = 90;
  quote_id = none;
  invoice_id = some 5;
  service_offer_id = 4;
  completion_date = 10;
  gross_amount = pos 10000;
  discount = pos 0;
  tax = pos 0;
  net_amount = pos 10000;
  currency = gbp;
  payment_status = Invoices.unpaid;
  is_primary = true;
  adjusts_entry_id = none;
  transaction_reference = 8;
  fee_evidence = some (pos 500);
}

abbrev pub sample_payment : Payment
sample_payment = record {
  id = 0;
  idempotency_key = 30;
  business_id = 1;
  customer_id = 2;
  invoice_id = some 5;
  amount = pos 6000;
  currency = gbp;
  payment_method = 1;
  status = Payments.pending;
  provider = 1;
  provider_reference = none;
  refunded_amount = pos 0;
  refund_provider_reference = none;
  paid_at = none;
  refunded_at = none;
  provider_evidence = none;
  fee_evidence = some (pos 500);
  failure_code = none;
  failure_message = none;
}

-- The payment once the provider has taken the money.
abbrev pub paid_payment : Payment
paid_payment = record sample_payment {
  status = Payments.succeeded;
  provider_reference = some 40;
  paid_at = some 12;
}

abbrev pub sample_enquiry : Enquiry
sample_enquiry = record {
  id = 20;
  customer_id = 2;
  business_id = 1;
  service_offer_id = 4;
  status = Enquiries.submitted;
}

abbrev pub sample_quote : Quote
sample_quote = record {
  id = 21;
  customer_id = 2;
  business_id = 1;
  enquiry_id = 20;
  service_offer_id = 4;
  amount = pos 4500;
  currency = gbp;
  status = Quotes.issued;
  fee_evidence = none;
}

abbrev pub sample_booking : Booking
sample_booking = record {
  id = 22;
  customer_id = 2;
  business_id = 1;
  quote_id = 21;
  enquiry_id = 20;
  service_offer_id = 4;
  requested_at = 50;
  currency = gbp;
  status = Bookings.confirmed;
}

abbrev pub sample_execution : ServiceExecution
sample_execution = record {
  id = 23;
  business_id = 1;
  customer_id = 2;
  booking_id = 22;
  service_offer_id = 4;
  quote_id = some 21;
  status = Executions.in_progress;
  scheduled_at = 50;
  started_at = some 50;
  completed_at = none;
  completed_by = none;
  completion_evidence = none;
  notes = none;
}

abbrev pub sample_store : Payment → Store
sample_store p = record {
  businesses = sample_business ∷ [];
  payments = p ∷ [];
  attempts = [];
  invoices = sample_invoice ∷ [];
  line_items = [];
  ledger_entries = sample_entry ∷ [];
  enquiries = sample_enquiry ∷ [];
  quotes = sample_quote ∷ [];
  bookings = sample_booking ∷ [];
  executions = sample_execution ∷ [];
  conversations = [];
  messages = [];
  outbox = [];
  payments_sent = [];
  refunds_sent = [];
}

-- A provider that answers every request with success.
abbrev pub willing : PaymentProvider
willing = record {
  is_stripe = true;
  initiate_payment = λ r. record {
    success = true;
    provider_reference = some 40;
    error = none;
    raw_status = Provider.succeeded;
    raw_response = none;
  };
  refund = λ r. record {
    success = true;
    provider_reference = some 41;
    error = none;
    raw_status = Provider.succeeded;
    raw_response = none;
  };
}

abbrev pub sample_completion : Completion
sample_completion = record {
  now = 60;
  invoice_id = 9;
  entry_id = 9;
  transaction_reference = 9;
  service_name = λ i. some i;
  calculate_fee = λ b a c. none;
}

-- The value of a run, or else a given one.
abbrev pub value_or : {A : Type 0} → A → Result A → A
value_or a (ok x) = x
value_or a (err e) = a
