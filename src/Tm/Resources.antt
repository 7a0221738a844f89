-- ===== src/Tm/Resources.antt =====
-- common/task/SDMTaskResources.{h,cpp}: what a task needs and a Process Manager has, as four nibbles of
-- an unsigned short. A masked nibble is a remainder, and a disjunction of different nibbles a sum.
pub mod Fields
use vn_sdm.Common.{
  ℕ, ◌+◌, ◌*◌, ◌/◌, ◌%◌, ◌^◌, leb, ◌==◌, if◌then◌else◌, Bool, true, false, not, ◌&&◌, ◌||◌,
}

-- `m_usResources`
abbrev pub Resources : Type 0
Resources = ℕ

-- `GetArch`, `& ARCHMASK`
unfoldable pub arch : Resources → ℕ
arch r = r % 16

-- `GetMem`, `& MEMMASK`
unfoldable pub mem : Resources → ℕ
mem r = r / 16 % 16 * 16

-- `GetOs`, `& OSMASK`
unfoldable pub os : Resources → ℕ
os r = r / 256 % 16 * 256

-- `GetPreferredPmId`, `& PMIDMASK`
unfoldable pub preferred_pm_id : Resources → ℕ
preferred_pm_id r = r / 4096 % 16 * 4096

-- `IsPreferredPmIdSet`
unfoldable pub is_preferred_pm_id_set : Resources → Bool
unfolding preferred_pm_id
is_preferred_pm_id_set r = not (preferred_pm_id r == 0)

-- `GetPreferredPmIdNum`: the masked bits are shifted by eight, and the lowest byte is kept.
unfoldable pub preferred_pm_id_num : Resources → ℕ
unfolding preferred_pm_id
preferred_pm_id_num r = preferred_pm_id r / 256 % 256

-- `GetIgnorePmId`
unfoldable pub ignore_pm_id : Resources → ℕ
ignore_pm_id r = r % 4096

-- `SetPreferredPmNodeId`: PM_ID shifts by twelve.
unfoldable pub set_preferred_pm_node_id : Resources → ℕ → Resources
set_preferred_pm_node_id r new_pm_id = r % 4096 + new_pm_id * 4096 % 2 ^ 16

-- `SetArch`
unfoldable pub set_arch : Resources → ℕ → Resources
set_arch r v = r / 16 % 4096 * 16 + v % 16

-- `SetMem`
unfoldable pub set_mem : Resources → ℕ → Resources
set_mem r v = r % 16 + r / 256 % 256 * 256 + v / 16 % 16 * 16

-- `SetOs`
unfoldable pub set_os : Resources → ℕ → Resources
set_os r v = r % 256 + r / 4096 % 16 * 4096 + v / 256 % 16 * 256

-- `MatchResources`
unfoldable pub match_resources : Resources → Resources → Bool
unfolding is_preferred_pm_id_set preferred_pm_id arch mem os
match_resources pm task =
    if is_preferred_pm_id_set task && not (preferred_pm_id pm == preferred_pm_id task)
    then false
    else arch pm == arch task && (leb (mem task) (mem pm) && os pm == os task)
