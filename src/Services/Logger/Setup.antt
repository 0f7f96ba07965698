-- ===== src/Services/Logger/Setup.antt =====
-- The handlers of the root logger after the set-up.
use postal_dnsbl_monitor.Common.{
  ℕ, Bool, true, false, not, ◌||◌, List, [], ◌∷◌, select, ◌==◌, ◌≡◌, refl, All, arith, Bool-cases,
  inl, inr,
}
use postal_dnsbl_monitor.Services.Logger.{RootLogger, remove_handler, remove_all, setup_logging}

abbrev any_equal : ℕ → List ℕ → Bool
any_equal h [] = false
any_equal h (j ∷ js) = (h == j) || any_equal h js

-- The handler is among those.
abbrev Among : List ℕ → ℕ → Type 0
Among hs h = any_equal h hs ≡ true

kept_handlers :
    (h : ℕ) (hs handlers : List ℕ)
    → All (Among (h ∷ hs)) handlers
    → All (Among hs) (select (λ j. not (j == h)) handlers)
kept_handlers h hs [] a = tt
kept_handlers h hs (j ∷ js) a = elim (Bool-cases (j == h)) [
  | inl same ↦ rw same (kept_handlers h hs js a.1)
  | inr other ↦ rw other (ground arith, kept_handlers h hs js a.1)
]

none_left : (handlers : List ℕ) → All (Among []) handlers → handlers ≡ []
none_left [] a = refl
none_left (j ∷ js) a = cc

one_more : (h : ℕ) (hs js : List ℕ) → All (Among hs) js → All (Among (h ∷ hs)) js
one_more h hs [] a = tt
one_more h hs (j ∷ js) a = (ground (arith, a.0), one_more h hs js a.1)

itself : (handlers : List ℕ) → All (Among handlers) handlers
itself [] = tt
itself (h ∷ hs) = (ground arith, one_more h hs hs (itself hs))

remove_all-level : (hs : List ℕ) (logger : RootLogger) → (remove_all hs logger).level ≡ logger.level
unfolding remove_all remove_handler
remove_all-level [] logger = refl
remove_all-level (h ∷ hs) logger = remove_all-level hs (remove_handler h logger)

remove_all-handlers :
    (hs : List ℕ) (logger : RootLogger)
    → All (Among hs) logger.handlers
    → (remove_all hs logger).handlers ≡ []
unfolding remove_all remove_handler
remove_all-handlers [] logger a = none_left logger.handlers a
remove_all-handlers (h ∷ hs) logger a =
    remove_all-handlers hs (remove_handler h logger) (kept_handlers h hs logger.handlers a)

-- After the set-up the new handler is the only one, whatever handlers the root logger had before,
-- and the level is INFO.
pub setup_logging-handlers :
    (json_handler : ℕ) (logger : RootLogger)
    → ((setup_logging json_handler logger).handlers ≡ json_handler ∷ [])
      × ((setup_logging json_handler logger).level ≡ 20)
unfolding setup_logging
setup_logging-handlers json_handler logger =
    let cleared =
      remove_all-handlers logger.handlers (record logger { level = 20 }) (itself logger.handlers) in
    (rw cleared refl, remove_all-level logger.handlers (record logger { level = 20 }))
