-- ===== src/Users/UserEvent.antt =====
-- domain/src/users.rs: the facts that an account raises for the money plane.
use concierge.Prelude.{String}

pub data UserEvent : Type 0 where
  created sessions_revoked suspended reinstated kyc_changed role_changed : UserEvent
  -- Raised by the boot-time seat announce, never by the aggregate.
  permissions_changed : UserEvent

-- The stored word.
unfoldable pub kind : UserEvent → String
kind created = "CREATED"
kind sessions_revoked = "SESSIONS_REVOKED"
kind suspended = "SUSPENDED"
kind reinstated = "REINSTATED"
kind kyc_changed = "KYC_CHANGED"
kind role_changed = "ROLE_CHANGED"
kind permissions_changed = "PERMISSIONS_CHANGED"
