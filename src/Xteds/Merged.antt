-- ===== src/Xteds/Merged.antt =====
-- What the merge_* functions of lists and of whole documents keep, free and lose, together.
use vn_sdm.Common.{ℕ, ◌+◌, ◌≡◌, List, Option}
use vn_sdm.Xteds.Structures.{DataMsg, Interface, Message, Xteds}
use vn_sdm.Xteds.Assemble.{merge_data_msg, merge_message, merge_interface, merge_xteds}
use vn_sdm.Xteds.Ownership.{count}
use vn_sdm.Xteds.Released.{in_data_msgs, in_message, in_interfaces, in_xteds}
use vn_sdm.Xteds.Single.{lost_data_msgs, lost_interfaces, merge_data_msg_lem, merge_interface_lem}
use vn_sdm.Xteds.Assembled.{lost_xteds, merge_message_lem, merge_xteds_lem}

-- A block that two arguments of a merge function own is kept in the result or freed, as often as it is
-- owned, but for the blocks that the function loses. Two messages lose none. Two lists of data messages
-- or of interfaces lose what stands behind the second list's first element, and of that element its
-- lists where the first list's element has some (of a data message also the interface's name and
-- number). Two whole xTEDS lose the second's texts that the first has as well, and the second's
-- attributes and interfaces.
pub merges_lem :
    (p : ℕ) (m n : Option Message) (c d : List DataMsg) (i j : List Interface) (x y : Option Xteds)
    → (in_message p (merge_message m n).0 + count p (merge_message m n).1
        ≡ in_message p m + in_message p n)
      × (in_data_msgs p (merge_data_msg c d).0
            + count p (merge_data_msg c d).1
            + lost_data_msgs p c d
          ≡ in_data_msgs p c + in_data_msgs p d)
      × (in_interfaces p (merge_interface i j).0
            + count p (merge_interface i j).1
            + lost_interfaces p i j
          ≡ in_interfaces p i + in_interfaces p j)
      × (in_xteds p (merge_xteds x y).0 + count p (merge_xteds x y).1 + lost_xteds p x y
          ≡ in_xteds p x + in_xteds p y)
merges_lem p m n c d i j x y = (
  merge_message_lem p m n,
  merge_data_msg_lem p c d,
  merge_interface_lem p i j,
  merge_xteds_lem p x y,
)
