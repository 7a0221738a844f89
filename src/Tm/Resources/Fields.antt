-- ===== src/Tm/Resources/Fields.antt =====
-- The four nibbles of the resources are independent fields.
use vn_sdm.Common.{ℕ, ◌+◌, ◌*◌, ◌%◌, ◌^◌, ◌<◌, ◌≡◌, arith}
use vn_sdm.Tm.Resources.{
  Resources, arch, mem, os, preferred_pm_id, preferred_pm_id_num, ignore_pm_id,
  set_preferred_pm_node_id, set_arch, set_mem, set_os,
}

-- The four fields of a value.
abbrev pub fields : Resources → ℕ × ℕ × ℕ × ℕ
fields r = (arch r, mem r, os r, preferred_pm_id r)

-- Each setter sets its own field, to the bits of the given value that belong there, and leaves the other
-- three; the four fields make up the value. The number that `GetPreferredPmIdNum` then reads is sixteen
-- times the node's number.
pub fields_lem :
    (r v : ℕ)
    → r < 2 ^ 16
    → (fields (set_arch r v) ≡ (arch v, mem r, os r, preferred_pm_id r))
      × (fields (set_mem r v) ≡ (arch r, mem v, os r, preferred_pm_id r))
      × (fields (set_os r v) ≡ (arch r, mem r, os v, preferred_pm_id r))
      × (fields (set_preferred_pm_node_id r v) ≡ (arch r, mem r, os r, v % 16 * 4096))
      × (preferred_pm_id_num (set_preferred_pm_node_id r v) ≡ 16 * (v % 16))
      × (ignore_pm_id r ≡ arch r + mem r + os r)
      × (r ≡ ignore_pm_id r + preferred_pm_id r)
unfolding arch mem os preferred_pm_id preferred_pm_id_num ignore_pm_id set_preferred_pm_node_id
    set_arch set_mem set_os
fields_lem r v h = ground arith
