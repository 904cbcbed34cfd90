-- ===== src/Billing/Facts.antt =====
-- apps/agents/billing_entitlement/models.py, policy.py: the billing facts and the recommendation.
-- Amounts are whole cents, units of usage are billionths, times are microseconds.
use decentralized_agentic_re.Prelude.{ℕ, String, Bool, Option, List}
use decentralized_agentic_re.Prelude.Int.{ℤ, pos}
use decentralized_agentic_re.Contracts.{EvidenceItem}

pub data Recommendation : Type 0 where
  approve_full_refund : Recommendation
  approve_partial_refund : Recommendation
  deny_refund : Recommendation
  request_more_information : Recommendation
  manual_review : Recommendation

pub data SubscriptionStatus : Type 0 where
  active : SubscriptionStatus
  cancelled : SubscriptionStatus
  lapsed : SubscriptionStatus

pub data Term : Type 0 where
  monthly : Term
  annual : Term

pub record Subscription : Type 0 where
  pub subscription_id : String
  pub status : SubscriptionStatus
  pub term : Term
  pub started_at : ℕ
  pub renewed_at : Option ℕ

pub record Invoice : Type 0 where
  pub invoice_id : String
  pub purchase_reference : String
  pub amount : ℤ
  pub currency : String
  pub issued_at : ℕ
  pub paid : Bool

pub record Payment : Type 0 where
  pub payment_id : String
  pub invoice_id : String
  pub captured : Bool
  pub amount : ℤ
  pub reversed_amount : ℤ

pub data EntitlementStatus : Type 0 where
  in_force : EntitlementStatus
  revoked : EntitlementStatus

pub record Entitlement : Type 0 where
  pub entitlement_id : String
  pub subscription_id : String
  pub status : EntitlementStatus
  pub delivered : Bool
  pub access_granted : Bool
  pub access_used : Bool
  pub feature_enabled : Bool
  pub account_active : Bool

pub record ProductUsage : Type 0 where
  pub usage_units : ℤ
  pub allotment_units : ℤ

pub record BillingFacts : Type 0 where
  pub subscription : Option Subscription
  pub invoice : Option Invoice
  pub payment : Option Payment
  pub entitlement : Option Entitlement
  pub usage : Option ProductUsage

pub record EligibilityRecommendation : Type 0 where
  pub recommendation : Recommendation
  pub confidence : ℤ
  pub evidence : List EvidenceItem
  pub policy_references : List String
  pub reasoning_summary : String
  pub requires_human_review : Bool
  pub eligible_refund_amount : ℤ
  pub subscription_status : String
  pub invoice_status : String
  pub payment_status : String
  pub entitlement_status : String
  pub usage_level : String
  pub refund_window_status : String

abbrev pub refund_window_days : ℤ
refund_window_days = pos 30
