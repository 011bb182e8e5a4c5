-- ===== src/Domain/Errors.antt =====
-- internal/domain/errors.go, the sentinels of internal/ports/errors.go, `ValidationError` of
-- internal/domain/email_task.go, and what `fmt.Errorf` and `errors.Is` do with them.
use qtip_challenge.Base.{
  Option, none, some, ℕ, suc, ◌+◌, String, ◌<>◌, ◌≡◌, refl, Bool, true, false, ◌||◌, List, [], ◌∷◌,
}
use qtip_challenge.Base.Int.{pos}
use qtip_challenge.Base.Decimal.{itoa}

-- The sentinel errors that callers test for.
pub data Sentinel : Type 0 where
  non_retryable circuit_open : Sentinel

mutual
  pub data GoError : Type 0 where
    -- `errors.New`, `fmt.Errorf` without `%w`, and errors of packages outside the repository
    plain : String → GoError
    -- `fmt.Errorf("…%w", err)`; the verb is the last part of every such format
    wrap : String → GoError → GoError
    -- ports.ErrNonRetryable, ports.ErrCircuitOpen
    sentinel : Sentinel → GoError
    -- *ValidationError, by field and message
    validation : String → String → GoError
    -- *MultiError
    multi : GoErrors → GoError

  pub data GoErrors : Type 0 where
    nil : GoErrors
    cons : GoError → GoErrors → GoErrors

abbrev pub sentinel_text : Sentinel → String
sentinel_text non_retryable = "non-retryable delivery failure"
sentinel_text circuit_open = "circuit breaker open"

-- len(e.Errors)
unfoldable pub count_errors : GoErrors → ℕ
count_errors nil = 0
count_errors (cons e es) = suc (count_errors es)

-- The joins of the numbered messages by "; ", and the choice between one error and several.
join_messages : List String → String
join_messages [] = ""
join_messages (s ∷ []) = s
join_messages (s ∷ t ∷ rest) = s <> "; " <> join_messages (t ∷ rest)

numbered : ℕ → List String → List String
numbered i [] = []
numbered i (s ∷ rest) = ("[" <> itoa (pos (i + 1)) <> "] " <> s) ∷ numbered (i + 1) rest

multi_text : ℕ → List String → String
unfolding join_messages numbered
multi_text n (s ∷ []) = s
multi_text n msgs = itoa (pos n) <> " errors: " <> join_messages (numbered 0 msgs)

-- The `Error` methods.
unfoldable mutual
  unfolding multi_text count_errors

  pub error_text : GoError → String
  error_text (plain s) = s
  error_text (wrap prefix e) = prefix <> error_text e
  error_text (sentinel s) = sentinel_text s
  error_text (validation field message) = "validation: " <> field <> ": " <> message
  error_text (multi es) = multi_text (count_errors es) (error_texts es)

  pub error_texts : GoErrors → List String
  error_texts nil = []
  error_texts (cons e es) = error_text e ∷ error_texts es

abbrev same_sentinel : Sentinel → Sentinel → Bool
same_sentinel non_retryable non_retryable = true
same_sentinel circuit_open circuit_open = true
same_sentinel _ _ = false

-- `errors.Is(e, target)`: through `%w` and through `MultiError.Unwrap`.
unfoldable mutual
  pub is_error : Sentinel → GoError → Bool
  is_error target (plain s) = false
  is_error target (wrap prefix e) = is_error target e
  is_error target (sentinel s) = same_sentinel s target
  is_error target (validation field message) = false
  is_error target (multi es) = any_is_error target es

  pub any_is_error : Sentinel → GoErrors → Bool
  any_is_error target nil = false
  any_is_error target (cons e es) = is_error target e || any_is_error target es

-- A *MultiError of the errors that a loop has gathered, or nil for none.
abbrev pub multi_error : GoErrors → Option GoError
multi_error nil = none
multi_error (cons e es) = some (multi (cons e es))

multi_text_example :
    error_text (multi (cons (plain "a") (cons (wrap "task 7: " (sentinel circuit_open)) nil)))
    ≡ "2 errors: [1] a; [2] task 7: circuit breaker open"
unfolding error_text itoa
multi_text_example = refl
