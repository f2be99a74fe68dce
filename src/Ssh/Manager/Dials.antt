-- ===== src/Ssh/Manager/Dials.antt =====
-- The statistics of failed backend dials: logBackendDialError over a series of failures.
use k8s_ssh_gateway_controll.Prelude.{
  ℕ, suc, ◌+◌, ◌≤◌, ◌<◌, ◌≡◌, true, some, List, [], ◌∷◌, ◌++◌, map, arith, length, All,
}
use k8s_ssh_gateway_controll.Prelude.Eq.{int_eq, nat_eq}
use k8s_ssh_gateway_controll.Go.Text.{text_eq}
use k8s_ssh_gateway_controll.Ssh.Flags.{kind_eq}
use k8s_ssh_gateway_controll.Ssh.Manager.State.{DialErrorStats}
use k8s_ssh_gateway_controll.Ssh.Manager.Operations.{
  note_failure, cooldown, should_warn, Level, warn, debug,
}

-- The statistics after failures at the given times, and the level of each.
unfoldable pub note_failures : DialErrorStats → List ℕ → DialErrorStats × List Level
note_failures stats [] = (stats, [])
note_failures stats (now ∷ times) =
    let (next, level) = note_failure stats now in
    let (last, levels) = note_failures next times in (last, level ∷ levels)

-- A time in the cooldown that a warning at `since` begins.
abbrev pub Within : ℕ → ℕ → Type 0
Within since now = now < since + cooldown

-- A warning after the cooldown has the count of the failures within it.
note_failures-later :
    (since n now : ℕ) (times : List ℕ)
    → All (Within since) times
    → since + cooldown ≤ now
    → note_failures (record { last_logged = some since; suppressed = n }) (times ++ now ∷ []) ≡ (
      record { last_logged = some now; suppressed = 0 },
      map (λ (_ : ℕ). debug) times ++ warn (n + length times) ∷ [],
    )
unfolding note_failures note_failure
note_failures-later since n now [] within late = ground arith
note_failures-later since n now (t ∷ times) (early, within) late =
    ground (arith, note_failures-later since (suc n) now times within late)

-- Failures of one backend: where one at `since` is logged as a warning and the next ones fall into
-- its cooldown, these are logged for debugging only, and the first failure after the cooldown is
-- logged as a warning that reports exactly how many were suppressed.
pub note_failures-window :
    (stats : DialErrorStats) (since now : ℕ) (times : List ℕ)
    → should_warn stats.last_logged since ≡ true
    → All (Within since) times
    → since + cooldown ≤ now
    → note_failures stats (since ∷ times ++ now ∷ []) ≡ (
      record { last_logged = some now; suppressed = 0 },
      warn stats.suppressed ∷ map (λ (_ : ℕ). debug) times ++ warn (length times) ∷ [],
    )
unfolding note_failures note_failure
note_failures-window stats since now times first within late =
    ground (arith, note_failures-later since 0 now times within late)
