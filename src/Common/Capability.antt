-- ===== src/Common/Capability.antt =====
-- common/capability.py.
use model_hub.Prelude.{Bool, true, false}

pub data CheckStatus : Type 0 where
  pass : CheckStatus
  fail : CheckStatus
  skip : CheckStatus
  warn : CheckStatus

-- Only PASS counts as available.
unfoldable pub is_available : CheckStatus → Bool
is_available pass = true
is_available fail = false
is_available skip = false
is_available warn = false
