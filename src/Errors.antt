-- ===== src/Errors.antt =====
-- The error values of the program: internal/database/errors.go, internal/coderun/errors.go, and the
-- errors of the libraries as far as the code tells them apart.
use mock_server.Prelude.{◌≡◌, refl, ◌⊎◌, inl, inr, String}

-- What the MongoDB driver returns. The code compares with `mongo.ErrNoDocuments`, asks
-- `mongo.IsDuplicateKeyError`, and passes everything else on.
pub data DriverError : Type 0 where
  no_documents : DriverError
  duplicate_write : DriverError
  failure : String → DriverError

pub data Error : Type 0 where
  -- database/errors.go
  no_such_path duplicate_key no_such_record no_such_pool bad_route_type : Error
  -- coderun/errors.go
  code_run_failed worker_failed : Error
  -- `context.Canceled`, `context.DeadlineExceeded`
  canceled deadline_exceeded : Error
  driver : DriverError → Error
  -- `errors.New`, `fmt.Errorf` and errors of other libraries
  failed : String → Error
  -- a run-time panic, which ends the request (gin.Recovery)
  panicked : Error

pub data Result {ℓ} (A : Type ℓ) : Type ℓ where
  ok : A → Result A
  err : Error → Result A

pub Result-cases {ℓ} :
    {A : Type ℓ} (r : Result A) → ((e : Error) × (r ≡ err e)) ⊎ ((a : A) × (r ≡ ok a))
Result-cases (ok a) = inr (a, refl)
Result-cases (err e) = inl (e, refl)
