-- ===== src/Tests/Processes.antt =====
-- Runs of pm/PMProcess.
use vn_sdm.Common.{ℕ, leb, not, ◌≡◌, refl, arith, true, false, ◌&&◌, ◌==◌, List, [], ◌∷◌}
use vn_sdm.Pm.Process.{
  Process, task_timeout_attempts, kept, create, heartbeat_received, is_unresponsive, failure, reset,
}
use vn_sdm.Pm.Process.Patience.{given_up, late, patience_lem}

abbrev process : Process
process = create (b'a' ∷ []) 3 1200

-- After a heartbeat at 100 s, five questions from 150 s on, and six from 160 s on.
abbrev times : List ℕ
times = 170 ∷ 168 ∷ 166 ∷ 164 ∷ 162 ∷ 160 ∷ 158 ∷ 156 ∷ 154 ∷ 152 ∷ 150 ∷ []

patience_lem_example :
    let gone = given_up times (heartbeat_received 100 process) in
    ((gone && late 100 times == 0) ≡ false)
    × ((leb task_timeout_attempts (late 100 times) && not gone) ≡ false)
patience_lem_example = patience_lem process 100 times (omega arith)

six_come : (late 100 times ≡ 6) × (given_up times (heartbeat_received 100 process) ≡ true)
unfolding is_unresponsive heartbeat_received create
six_come = (refl, refl)

-- A process that failed, and is started again before its first heartbeat, is asked for nothing.
started_again : (is_unresponsive 172 (reset (failure process))).1 ≡ false
unfolding is_unresponsive reset failure create kept
started_again = refl
