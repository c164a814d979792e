-- ===== src/Journal.antt =====
-- The log of loguru and the exceptions that Sentry is given, as the two wrappers of
-- src/integrations/integration_client_utils.py and
-- src/transport/middlewares/logging_middleware.py write them.
use fast_api_example.Prelude.{
  Option-cases, String, ◌≡◌, refl, ◌⊎◌, inl, inr, Option, none, some, List, [], ◌∷◌, ◌++◌,
}
use fast_api_example.Errors.{Exception, raised, make_error, logging}

-- The entries of the log, and what `capture_exception` was called with.
pub record Journal (E : Type 0) : Type 0 where
  pub entries : List E
  pub captured : List Exception

-- `LoggingError(debug=...)`
unfoldable pub logging_error : String → Exception
unfolding make_error
logging_error debug = raised (make_error logging none (some debug))

module _ {E : Type 0} where
  unfoldable pub capture : Exception → Journal E → Journal E
  capture e journal = record journal { captured = journal.captured ++ e ∷ [] }

  -- `logger.info(entry)` and the `except` clause around it, where the first argument is the text of
  -- what `logger.info` raises, if anything.
  unfoldable pub write_entry : (E → Option String) → E → Journal E → Journal E
  unfolding capture logging_error
  write_entry refused entry journal = elim (refused entry) [
    | none ↦ record journal { entries = journal.entries ++ entry ∷ [] }
    | some reason ↦ capture (logging_error reason) journal
  ]

  -- The log has one entry more, or, where the log raised, Sentry was given one error about it.
  abbrev pub IsWritten : (E → Option String) → E → Journal E → Journal E → Type 0
  IsWritten refused entry before after =
      ((refused entry ≡ none)
        × (after.entries ≡ before.entries ++ entry ∷ [])
        × (after.captured ≡ before.captured))
      ⊎ ((reason : String) × (refused entry ≡ some reason)
          × (after.entries ≡ before.entries)
          × (after.captured ≡ before.captured ++ logging_error reason ∷ []))

  pub write_entry-IsWritten :
      (refused : E → Option String) (entry : E) (journal : Journal E)
      → IsWritten refused entry journal (write_entry refused entry journal)
  unfolding write_entry
  write_entry-IsWritten refused entry journal = elim (Option-cases (refused entry)) [
    | inl e ↦ rw (e, write_entry) (inl (refl, refl, refl))
    | inr (reason, e) ↦ rw (e, write_entry) (inr (reason, refl, refl, refl))
  ]
