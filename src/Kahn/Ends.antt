-- ===== src/Kahn/Ends.antt =====
-- The specification. A ledger lists the tasks of an execution that have ended, the newest first, each
-- with `true` if it failed or was skipped.
use go_tempo.Base.{
  ℕ, ◌+◌, ◌≡◌, Bool, true, false, ◌&&◌, ◌||◌, List, [], ◌∷◌, String, str_eq, if◌then◌else◌, has,
}

abbrev pub Ledger : Type 0
Ledger = List (String × Bool)

-- Has the task ended?
abbrev pub ended : String → Ledger → Bool
ended d [] = false
ended d ((e, bad) ∷ es) = str_eq d e || ended d es

-- Have all of the dependencies ended?
abbrev pub all_ended : List String → Ledger → Bool
all_ended [] es = true
all_ended (d ∷ ds) es = ended d es && all_ended ds es

-- Has one of the dependencies failed or been skipped?
abbrev pub tainted : List String → Ledger → Bool
tainted ds [] = false
tainted ds ((e, bad) ∷ es) = bad && has e ds || tainted ds es

-- How many entries of the ledger are dependencies.
abbrev pub hits : List String → Ledger → ℕ
hits ds [] = 0
hits ds ((e, bad) ∷ es) = (if has e ds then 1 else 0) + hits ds es

-- No task ends twice.
abbrev pub IsOnce : Ledger → Type 0
IsOnce [] = Unit
IsOnce ((e, bad) ∷ es) = (ended e es ≡ false) × IsOnce es
