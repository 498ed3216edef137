-- ===== src/StatusChecker/Metadata.antt =====
-- parseTransactionMetadata (jobs/transaction-status-checker/transaction-metadata.util.ts).
use trust_up_api.Base.{ℕ, zero, suc, Option, none, some, List, [], ◌∷◌}

-- `negsuc n` is -(n + 1).
pub data ℤ : Type 0 where
  pos : ℕ → ℤ
  negsuc : ℕ → ℤ

abbrev pub pos_part : ℤ → ℕ
pos_part (pos n) = n
pos_part (negsuc _) = 0

abbrev pub neg_part : ℤ → ℕ
neg_part (pos _) = 0
neg_part (negsuc n) = suc n

-- What `scValToNative` makes of an argument: `text` is a text that is not empty, and `undefined`
-- stands for a call that throws, an empty text and a value of another kind. Besides its value, a
-- `bigint` or `number` carries the text that it is in a query.
pub data NativeArg : Type 0 where
  text : ℕ → NativeArg
  bigint number : ℕ → ℤ → NativeArg
  undefined : NativeArg

pub data FunctionName : Type 0 where
  create_loan repay_loan other_function : FunctionName

-- The function call in the first operation of a transaction.
pub record Invocation : Type 0 where
  pub function_name : FunctionName
  pub args : List NativeArg

-- What stellar-sdk decodes: malformed XDR throws; the first operation may be no contract call.
pub data Decoded : Type 0 where
  malformed : Decoded
  no_invocation : Decoded
  invocation : Invocation → Decoded

pub record TransactionMetadata : Type 0 where
  pub loan_id : Option ℕ
  pub amount : Option ℤ

pub data Parsed : Type 0 where
  throws : Parsed
  no_metadata : Parsed
  metadata : TransactionMetadata → Parsed

abbrev pub arg_at : List NativeArg → ℕ → NativeArg
arg_at [] i = undefined
arg_at (a ∷ args) zero = a
arg_at (a ∷ args) (suc i) = arg_at args i

-- `nativeArgs[i] as string`: the callers test it by `!loanId`, so what is falsy is `none`.
abbrev pub as_string : NativeArg → Option ℕ
as_string (text t) = some t
as_string (bigint t (pos zero)) = none
as_string (bigint t _) = some t
as_string (number t (pos zero)) = none
as_string (number t _) = some t
as_string undefined = none

-- `Number(rawAmount) / 10_000_000` dollars are `rawAmount` stroops.
abbrev pub as_amount : NativeArg → Option ℤ
as_amount (bigint _ n) = some n
as_amount (number _ n) = some n
as_amount _ = none

metadata_of_call : FunctionName → List NativeArg → Parsed
metadata_of_call create_loan args =
    metadata (record { loan_id = as_string (arg_at args 0); amount = none })
metadata_of_call repay_loan args =
    metadata (record { loan_id = as_string (arg_at args 1); amount = as_amount (arg_at args 2) })
metadata_of_call other_function args = no_metadata

metadata_of_decoded : Decoded → Parsed
metadata_of_decoded malformed = throws
metadata_of_decoded no_invocation = no_metadata
metadata_of_decoded (invocation call) = metadata_of_call call.function_name call.args

unfoldable pub parse_transaction_metadata : (ℕ → Decoded) → Option ℕ → Parsed
unfolding metadata_of_decoded metadata_of_call
parse_transaction_metadata from_xdr none = no_metadata
parse_transaction_metadata from_xdr (some xdr) = metadata_of_decoded (from_xdr xdr)
