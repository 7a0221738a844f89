-- ===== src/Tm/PmRecordList/Heartbeats.antt =====
-- How many heartbeats a Process Manager that registers may miss.
use vn_sdm.Common.{
  ℕ, zero, suc, ◌≡◌, refl, arith, true, false, List, [], ◌∷◌, ◌++◌, length, some, get_elem?, All,
  ◌∙◌, ap, sym,
}
use vn_sdm.Common.Int.{ℤ, pos, ◌+ℤ◌, leb_ℤ, int_laws}
use vn_sdm.ComponentId.{ComponentId}
use vn_sdm.Tm.Resources.{Resources}
use vn_sdm.Tm.PmRecordList.{
  Slot, port_pm, update_first, register_pm, send_heartbeat_to_all, has_failed,
}

-- Rounds of heartbeats that nobody answers.
unfoldable pub missed : ℕ → List Slot → List Slot
unfolding send_heartbeat_to_all
missed zero l = l
missed (suc n) l = missed n (send_heartbeat_to_all l).0

send_heartbeat_to_all_at :
    (l : List Slot) (i : ℕ) (s : Slot)
    → get_elem? l i ≡ some s
    → s.pm.in_use ≡ true
    → get_elem? (send_heartbeat_to_all l).0 i
      ≡ some (record s { heartbeat_status = s.heartbeat_status +ℤ pos 1 })
unfolding send_heartbeat_to_all
send_heartbeat_to_all_at [] i s g u = ground arith
send_heartbeat_to_all_at (x ∷ l) zero s g u = ground arith
send_heartbeat_to_all_at (x ∷ l) (suc i) s g u = ground (arith, send_heartbeat_to_all_at l i s)

add_zero : (a : ℤ) → a +ℤ pos 0 ≡ a
add_zero a = grind int_laws

add_suc : (a : ℤ) (n : ℕ) → a +ℤ pos 1 +ℤ pos n ≡ a +ℤ pos (suc n)
add_suc a n = grind int_laws

missed_at :
    (n : ℕ) (l : List Slot) (i : ℕ) (s : Slot)
    → get_elem? l i ≡ some s
    → s.pm.in_use ≡ true
    → get_elem? (missed n l) i ≡ some (record s { heartbeat_status = s.heartbeat_status +ℤ pos n })
unfolding missed
missed_at zero l i s g u =
    g ∙ ap (λ h. some (record s { heartbeat_status = h })) (sym (add_zero s.heartbeat_status))
missed_at (suc n) l i s g u =
    let s' : Slot = record s { heartbeat_status = s.heartbeat_status +ℤ pos 1 } in
    missed_at n (send_heartbeat_to_all l).0 i s' (send_heartbeat_to_all_at l i s g u) u
    ∙ ap (λ h. some (record s { heartbeat_status = h })) (add_suc s.heartbeat_status n)

-- A slot that is in use.
abbrev pub InUse : Slot → Type 0
InUse s = s.pm.in_use ≡ true

register_pm_at :
    (before after : List Slot) (s : Slot) (a : ComponentId) (r : Resources)
    → All InUse before
    → s.pm.in_use ≡ false
    → get_elem? (register_pm (before ++ s ∷ after) a r).0 (length before)
      ≡ some (record s {
        pm = record {
          component_id = record a { port = port_pm };
          resources = r;
          tasks = pos 0;
          in_use = true;
        };
      })
unfolding register_pm update_first
register_pm_at [] after s a r u f = ground arith
register_pm_at (x ∷ before) after s a r u f =
    ground (arith, register_pm_at before after s a r u.1 f)

-- A manager registers in the first free slot, and then misses `n` heartbeats. It has failed just when
-- `n` and the heartbeat status that the slot was left with add up to two: `RegisterPM` does not reset
-- the status.
pub register_pm-missed :
    (before after : List Slot) (s : Slot) (a : ComponentId) (r : Resources) (n : ℕ)
    → All InUse before
    → s.pm.in_use ≡ false
    → (s' : Slot) × (get_elem? (missed n (register_pm (before ++ s ∷ after) a r).0) (length before)
        ≡ some s')
      × (s'.pm.component_id ≡ record a { port = port_pm })
      × (has_failed s' ≡ leb_ℤ (pos 2) (s.heartbeat_status +ℤ pos n))
register_pm-missed before after s a r n u f =
    let s' : Slot = record s {
      pm = record {
        component_id = record a { port = port_pm };
        resources = r;
        tasks = pos 0;
        in_use = true;
      };
    } in
    (
      record s' { heartbeat_status = s.heartbeat_status +ℤ pos n },
      missed_at n (register_pm (before ++ s ∷ after) a r).0 (length before) s'
          (register_pm_at before after s a r u f) refl,
      refl,
      refl,
    )
