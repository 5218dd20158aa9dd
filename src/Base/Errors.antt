-- ===== src/Base/Errors.antt =====
-- Errors of internal/service/errors.go and service.go by their class: what a caller can test with
-- errors.Is. The texts of the messages are not kept. `no_return` is no error of the program: it is the
-- outcome of a call that never returns.
pub data Error : Type 0 where
  invalid_input : Error
  failed_precondition : Error
  not_found : Error
  failure : Error
  no_return : Error

pub data Result {ℓ} (A : Type ℓ) : Type ℓ where
  ok : A → Result A
  err : Error → Result A
