-- ===== src/Tests/Throttle.antt =====
-- The limit of a key, with a window of a minute.
use lotus_build_server.Base.{◌≡◌, refl, true, false, [], ◌∷◌, arith}
use lotus_build_server.Throttler.Keys.{empty, find}
use lotus_build_server.Throttler.Window.{beyond}
use lotus_build_server.Throttler.Blocking.{decisions, decisions-beyond}

-- the third attempt within the minute is one too many
two_allowed : beyond 2 0 (1000 ∷ 2000 ∷ 30000 ∷ 60000 ∷ []) ≡ false ∷ false ∷ true ∷ true ∷ []
two_allowed = refl

decisions-beyond_example :
    decisions "10.0.0.1" 60000 2 60000 "default" (1000 ∷ 2000 ∷ 30000 ∷ 60000 ∷ []) empty
    ≡ beyond 2 0 (1000 ∷ 2000 ∷ 30000 ∷ 60000 ∷ [])
unfolding find
decisions-beyond_example =
    decisions-beyond "10.0.0.1" 60000 2 60000 "default" 1000 (2000 ∷ 30000 ∷ 60000 ∷ []) empty
      (ground arith) refl refl
      (
        (ground arith, ground arith),
        ((ground arith, ground arith), ((ground arith, ground arith), tt)),
      )
