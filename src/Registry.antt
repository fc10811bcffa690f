-- ===== src/Registry.antt =====
-- packages/queueovn/src/core/JobRegistry.ts: the handlers of the job types. A handler is any value.
use oblivinx.Base.{Bool, Option, none, some, String, List, ◌⊎◌, inl, inr}
use oblivinx.Base.Dict
use oblivinx.Base.Dict.{Dict, insert, erase, keys}
use oblivinx.Job.Errors.{Failure, unknown_job_type}

module _ {Handler : Type 0} where
  abbrev pub register : String → Handler → Dict Handler → Dict Handler
  register type handler handlers = insert type handler handlers

  abbrev pub handler_or : String → Option Handler → Failure ⊎ Handler
  handler_or type none = inl (unknown_job_type type)
  handler_or type (some handler) = inr handler

  -- `lookup`, which throws for a type without a handler.
  abbrev pub handler_of : String → Dict Handler → Failure ⊎ Handler
  handler_of type handlers = handler_or type (Dict.lookup type handlers)

  abbrev pub is_registered : String → Dict Handler → Bool
  is_registered type handlers = Dict.has type handlers

  abbrev pub unregister : String → Dict Handler → Dict Handler
  unregister type handlers = erase type handlers

  abbrev pub registered_types : Dict Handler → List String
  registered_types handlers = keys handlers
