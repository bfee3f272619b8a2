-- ===== src/Gateway/Model.antt =====
-- src/codeagent/gateway/model.py: the codes of `GatewayError`. Its message and context are left out.
-- `uncaught` stands for an exception of another class.
use aimeshchat.Base.{Result}

pub data ErrorCode : Type 0 where
  not_authorized owner_mismatch version_incompatible generation_stale unsupported_runtime :
      ErrorCode
  unsupported_capability remote_upgrade_required frame_too_large protocol not_found : ErrorCode
  protocol_conflict idempotency_conflict uncaught : ErrorCode

abbrev pub Answer {ℓ} : Type ℓ → Type ℓ
Answer A = Result ErrorCode A
