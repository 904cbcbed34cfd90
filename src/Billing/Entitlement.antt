-- ===== src/Billing/Entitlement.antt =====
-- apps/agents/billing_entitlement/entitlement_checker.py: the four entitlement signals.
use decentralized_agentic_re.Prelude.{
  String, Bool, true, false, not, ◌&&◌, Option, none, some, List, [], ◌∷◌, ◌++◌, is_empty,
  if◌then◌else◌,
}
use decentralized_agentic_re.Prelude.Text.{◌<>◌, join}
use decentralized_agentic_re.Contracts.{EvidenceItem, bool, object}
use decentralized_agentic_re.Billing.Facts.{
  Subscription, active, cancelled, lapsed, Entitlement, EntitlementStatus, in_force, revoked,
  BillingFacts,
}

pub record EntitlementCheck : Type 0 where
  pub granted : Bool
  pub used : Bool
  pub feature_enabled : Bool
  pub has_access : Bool
  pub mismatch : Bool
  pub summary : String

-- `subscription is not None and subscription.status == "cancelled"`
abbrev pub is_cancelled : Option Subscription → Bool
is_cancelled none = false
is_cancelled (some s) = elim s.status [ active ↦ false | cancelled ↦ true | lapsed ↦ false ]

abbrev pub is_revoked : EntitlementStatus → Bool
is_revoked in_force = false
is_revoked revoked = true

unfoldable pub conflicts : Entitlement → Option Subscription → List String
conflicts e s =
    (if not e.access_granted && e.access_used
      then "access_granted=False but access_used=True" ∷ []
      else [])
    ++ (if e.account_active && is_cancelled s
        then "account_active=True but subscription.status='cancelled'" ∷ []
        else [])
    ++ (if is_revoked e.status && e.feature_enabled
        then "entitlement.status='revoked' but feature_enabled=True" ∷ []
        else [])

check_summary : Entitlement → List String → String
check_summary e found =
    if not (is_empty found)
    then "Entitlement mismatch: " <> join "; " found
    else if e.access_used && e.access_granted
    then "Access granted and used (value delivered)"
    else if e.access_granted && not e.access_used
    then "Access granted but not used (value not consumed)"
    else if not e.access_granted && not e.access_used
    then "Access not granted and not used (not delivered)"
    else "Entitlement state normal"

unfoldable pub check_entitlement : BillingFacts → EntitlementCheck
unfolding check_summary conflicts
check_entitlement f = elim f.entitlement [
  | none ↦ record {
    granted = false;
    used = false;
    feature_enabled = false;
    has_access = false;
    mismatch = false;
    summary = "No entitlement record found";
  }
  | some e ↦ record {
    granted = e.access_granted;
    used = e.access_used;
    feature_enabled = e.feature_enabled;
    has_access = e.account_active;
    mismatch = not (is_empty (conflicts e f.subscription));
    summary = check_summary e (conflicts e f.subscription);
  }
]

unfoldable pub build_entitlement_evidence : EntitlementCheck → EvidenceItem
build_entitlement_evidence c = record {
  source = "entitlement";
  description = c.summary;
  value = object (
      ("granted", bool c.granted)
      ∷ ("used", bool c.used)
      ∷ ("feature_enabled", bool c.feature_enabled)
      ∷ ("has_access", bool c.has_access)
      ∷ ("mismatch", bool c.mismatch)
      ∷ []);
}
