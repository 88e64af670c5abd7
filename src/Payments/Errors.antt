-- ===== src/Payments/Errors.antt =====
-- lucent/payments.py, `PaymentError`.
use Prim.Native.String.{◌++◌}
use lucent.Prelude.{ℕ, String, Bool, true, false}

pub record PaymentError : Type 0 where
  pub code : String
  pub message : String
  pub status : ℕ
  pub retryable : Bool
  pub terminal : Bool

-- A failure that is the payer's: the status 402.
abbrev pub rejected : String → String → PaymentError
rejected code message = record {
  code = code;
  message = message;
  status = 402;
  retryable = false;
  terminal = false;
}

-- A failure of the facilitator, which may pass: the status 502.
abbrev pub unavailable : String → String → PaymentError
unavailable code message = record {
  code = code;
  message = message;
  status = 502;
  retryable = true;
  terminal = false;
}

-- A failure after the settlement has been submitted.
abbrev pub final : ℕ → String → String → PaymentError
final status code message = record {
  code = code;
  message = message;
  status = status;
  retryable = false;
  terminal = true;
}

-- The text of a `ValueError` about a setting.
abbrev pub about : String → String → String
about setting why = setting ++ why
