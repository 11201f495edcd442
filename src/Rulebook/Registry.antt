-- ===== src/Rulebook/Registry.antt =====
-- backend/app/domain/business/registry.py: the rule types that a version of a business brain may hold.
-- What no code reads, as the descriptions and the optional fields, is left out.
use Prim.Native.String.{String}
use fielded_online.Common.{Bool, List, [], ◌∷◌, ◌++◌, map, Option, find, any}
use fielded_online.Brain.Values.{Text, codes, same_text}

pub data ConfigCategory : Type 0 where
  service pricing availability qualification policy communication escalation : ConfigCategory

pub record RuleTypeDefinition : Type 0 where
  pub type_id : Text
  pub category : ConfigCategory
  pub required_fields : List Text

abbrev entry : String → ConfigCategory → List String → RuleTypeDefinition
entry t c fields = record { type_id = codes t; category = c; required_fields = map codes fields }

abbrev pub service_types : List RuleTypeDefinition
service_types =
    entry "service_definition" service ("service_name" ∷ [])
    ∷ entry "service_bundling" service ("bundle_name" ∷ "service_ids" ∷ [])
    ∷ entry "service_exclusion" service ("exclusion_description" ∷ [])
    ∷ entry "service_customization" service ("customization_name" ∷ [])
    ∷ []

abbrev pub pricing_types : List RuleTypeDefinition
pricing_types =
    entry "base_pricing" pricing ("amount" ∷ "currency" ∷ [])
    ∷ entry "surcharge" pricing ("surcharge_name" ∷ "amount" ∷ [])
    ∷ entry "discount" pricing ("discount_name" ∷ [])
    ∷ entry "price_floor" pricing ("minimum_amount" ∷ [])
    ∷ entry "price_cap" pricing ("maximum_amount" ∷ [])
    ∷ entry "quote_threshold" pricing ("threshold_type" ∷ [])
    ∷ entry "payment_terms" pricing ("payment_timing" ∷ [])
    ∷ []

abbrev pub availability_types : List RuleTypeDefinition
availability_types =
    entry "operating_hours" availability ("day_of_week" ∷ "open_time" ∷ "close_time" ∷ [])
    ∷ entry "minimum_notice" availability ("notice_hours" ∷ [])
    ∷ entry "maximum_advance" availability ("advance_days" ∷ [])
    ∷ entry "capacity_limit" availability ("max_capacity" ∷ [])
    ∷ entry "blackout_period" availability ("start_date" ∷ "end_date" ∷ [])
    ∷ entry "slot_configuration" availability ("slot_duration_minutes" ∷ [])
    ∷ entry "concurrent_limit" availability ("max_concurrent" ∷ [])
    ∷ []

abbrev pub qualification_types : List RuleTypeDefinition
qualification_types =
    entry "required_information" qualification ("field_name" ∷ [])
    ∷ entry "conditional_information" qualification ("field_name" ∷ "condition" ∷ [])
    ∷ entry "document_requirement" qualification ("document_type" ∷ [])
    ∷ entry "verification_requirement" qualification ("verification_type" ∷ [])
    ∷ entry "eligibility_check" qualification ("criteria_type" ∷ [])
    ∷ []

abbrev pub policy_types : List RuleTypeDefinition
policy_types =
    entry "cancellation_policy" policy ("window_hours" ∷ [])
    ∷ entry "refund_policy" policy ("refund_type" ∷ [])
    ∷ entry "modification_policy" policy ("modifiable_fields" ∷ [])
    ∷ entry "terms_of_service" policy ("terms_text" ∷ [])
    ∷ entry "liability_policy" policy ("limitation_type" ∷ [])
    ∷ entry "guarantee_policy" policy ("guarantee_type" ∷ [])
    ∷ entry "complaint_policy" policy ("response_window_hours" ∷ [])
    ∷ entry "booking_creation" policy ("initiation_method" ∷ [])
    ∷ entry "confirmation_rules" policy ("confirmation_method" ∷ [])
    ∷ entry "deposit_rules" policy ("deposit_required" ∷ [])
    ∷ entry "reminder_schedule" policy ("reminders" ∷ [])
    ∷ entry "auto_confirmation" policy ("enabled" ∷ [])
    ∷ entry "cancellation_window" policy ("hours_before_service" ∷ [])
    ∷ entry "cancellation_fee" policy ("fee_type" ∷ [])
    ∷ entry "cancellation_reason" policy ("accepted_reasons" ∷ [])
    ∷ entry "auto_cancellation" policy ("trigger_condition" ∷ [])
    ∷ entry "cancellation_approval" policy ("approval_required" ∷ [])
    ∷ entry "reschedule_window" policy ("hours_before_service" ∷ [])
    ∷ entry "reschedule_limit" policy ("max_reschedules" ∷ [])
    ∷ entry "reschedule_fee" policy ("fee_type" ∷ [])
    ∷ entry "reschedule_availability" policy ("check_availability" ∷ [])
    ∷ []

abbrev pub communication_types : List RuleTypeDefinition
communication_types =
    entry "response_time" communication ("target_hours" ∷ [])
    ∷ entry "channel_preference" communication ("channel" ∷ [])
    ∷ entry "tone_policy" communication ("tone" ∷ [])
    ∷ entry "template_selection" communication ("template_id" ∷ "trigger" ∷ [])
    ∷ entry "auto_response" communication ("trigger" ∷ "response_template" ∷ [])
    ∷ entry "escalation_notification" communication ("notification_trigger" ∷ [])
    ∷ []

abbrev pub escalation_types : List RuleTypeDefinition
escalation_types =
    entry "value_threshold" escalation ("threshold_amount" ∷ [])
    ∷ entry "complexity_trigger" escalation ("indicator" ∷ [])
    ∷ entry "customer_request" escalation ("enabled" ∷ [])
    ∷ entry "conflict_escalation" escalation ("enabled" ∷ [])
    ∷ entry "timeout_escalation" escalation ("timeout_minutes" ∷ [])
    ∷ entry "repeat_escalation" escalation ("max_attempts" ∷ [])
    ∷ []

-- The registry, in the order of registration.
unfoldable pub registry : List RuleTypeDefinition
registry =
    service_types ++ pricing_types ++ availability_types ++ qualification_types ++ policy_types
    ++ communication_types ++ escalation_types

unfoldable pub get_rule_type : Text → Option RuleTypeDefinition
get_rule_type t = find (λ d. same_text d.type_id t) registry

abbrev pub is_one_of : List Text → Text → Bool
is_one_of known t = any (λ k. same_text k t) known

abbrev pub current_schema_version : Text
current_schema_version = codes "1.0"

-- SUPPORTED_SCHEMA_VERSIONS
abbrev pub is_supported_schema_version : Text → Bool
is_supported_schema_version = is_one_of (codes "1.0" ∷ [])

-- SUPPORTED_OPERATORS
abbrev pub is_supported_operator : Text → Bool
is_supported_operator = is_one_of (
    map codes (
      "equals" ∷ "not_equals" ∷ "greater_than" ∷ "less_than" ∷ "greater_than_or_equal"
      ∷ "less_than_or_equal" ∷ "in" ∷ "not_in" ∷ "contains" ∷ "between" ∷ "is_empty"
      ∷ "is_not_empty" ∷ "matches_regex" ∷ "starts_with" ∷ "ends_with" ∷ []))

-- SUPPORTED_SCOPES
abbrev pub is_supported_scope : Text → Bool
is_supported_scope =
    is_one_of (map codes ("business" ∷ "service" ∷ "service_offer" ∷ "location" ∷ []))

-- SUPPORTED_OUTCOMES
abbrev pub is_supported_outcome : Text → Bool
is_supported_outcome = is_one_of (
    map codes
      ("allow" ∷ "deny" ∷ "require_approval" ∷ "escalate" ∷ "notify" ∷ "adjust" ∷ "info" ∷ []))
