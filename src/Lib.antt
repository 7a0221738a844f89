-- ===== src/Lib.antt =====
-- The Satellite Data Model (SDM), the middleware under sdm/, as far as it is logic and not input and
-- output: the messages that the processes exchange, and the tables that they keep.
--
-- The parts. Devices, applications and the managers (Data Manager, Task Manager, Process Managers)
-- exchange messages; each message is an object that `Marshal` writes into a byte buffer and
-- `Unmarshal` reads from one. A provider keeps a subscription manager, which AddSubscription,
-- RemoveSubscription and Publish work on, and the Data Manager keeps who is subscribed to what, so that
-- it can cancel the subscriptions of a component that is gone. Timers stand in a table of five slots.
-- The Task Manager keeps a table of tasks and a table of Process Managers; its handlers enter and remove
-- tasks, its scheduler gives each pending task a pid and sends it to a Process Manager, and its heartbeat
-- thread removes the Process Managers that do not answer and makes their tasks pending again. The xTEDS
-- parser builds the description of a device out of linked structures, and the message
-- manipulator the layout of a message as a tree of variables.
--
-- Files.
--   Common, Common/*        shared names, Boolean tests, lists, integers
--   Wire                    common/marshall.h: GET_* and PUT_*, and the text fields
--   Marshall                common/marshall.h and common/marshall.c on either kind of host; theorems in
--                           Marshall/Interop
--   ComponentId, MessageId  common/message/SDMComponent_ID.*, SDMMessage_ID.*
--   Header                  common/message/SDMmessage.*: the header; time is an argument
--   Message/Sdm*            common/message/SDM*.*, a class each: `create` is the constructor, `marshal`
--                           is Marshal, `unmarshal` is Unmarshal
--   Message/AnyMessage      common/message/SDMmessage.*: the virtual methods, and Forward
--   Message/Delivery/*, Message/RoundTrip/*, Message/Forward   theorems on the messages
--   SubscriptionManager     common/SubscriptionManager/SubscriptionManager.*; theorems on the keys in
--                           /Unique, on publication in /Publish, on copies in /Copy
--   SecTime, TimerList      common/Time/SecTime.*, common/Time/TimerList.*; theorems in SecTime/Micros,
--                           TimerList/Slots, TimerList/Expiry and TimerList/Pending
--   Dm/*                    dm/ProviderSubscriptionList.*, dm/ProviderSubscription.*,
--                           dm/backupDMList.*, dm/Subscription.*, dm/SubscriptionList.*,
--                           dm/xTEDSSegmentBuilder.*; theorems in the files Laws, in
--                           Dm/SubscriptionList/Null, Dm/SegmentBuilder/View and /Lost
--   Pm/Process              pm/PMProcess.*; theorem in Pm/Process/Patience
--   Tm/Resources            common/task/SDMTaskResources.*; theorem in Tm/Resources/Fields
--   Tm/Task, Tm/TaskList    tm/task.*, tm/tasklist.*, common/task/taskdefs.h; Tm/TaskList/Blob for
--                           FillTaskListBlob, Tm/TaskList/Update for lemmas on the change of one slot
--   Tm/PmRecordList         tm/pm_record.*, tm/pm_record_list.*; theorems in /Eligible, /Failed,
--                           /Heartbeats and /Ports
--   Tm/Manager              tm/tm.cpp: the handlers and the scheduler; Tm/Manager/Step is the step
--                           relation and the invariant, which Kept, Sweep, Handlers, Failure, Scheduling
--                           and Reach prove; theorems in Reach, Exceptions, Ended and Recovered
--   Xteds, Xteds/*          common/xTEDS/xTEDSParser.{h,c}: Xteds, Xteds/Merge and Xteds/Delete for
--                           variables, Xteds/Structures, Xteds/Assemble and Xteds/Release for messages,
--                           interfaces and whole xTEDS; theorems in Ownership and Released (what is
--                           freed), Lost, Assembled, Single and Merged (what merging keeps)
--   MessageManipulator      common/MessageManipulator/message.{h,c}; theorems on the tree of variables in
--                           /Lookup, on memory in /Memory
--   Tests/*                 runs at concrete inputs
--
-- State and operations. An object is a record with the data members of its class, a method a function
-- from the record (and its arguments) to the new record and the result. A linked list is a list with its
-- head first. A buffer is a function from offsets to bytes. A result such as -1 or
-- SDM_INVALID_MESSAGE is `none` or a constructor of a result type.
--
-- The threads of the Task Manager. What a thread does while it holds the mutexes is one step, and a
-- handler is one step; the scheduler chooses a task, looks at the reset flag after its sleep for a
-- delayed task, and starts the task in three steps, so that anything can happen between them. The step relation is in Tm/Manager/Step, with what is supposed of the messages:
-- a finished task is reported by a pid that is not 0, and a running task by a positive pid that no task of
-- the table has.
--
-- Bounds. The host is little-endian but in Marshall, `long` has four bytes and a signed number is
-- carried as its bit pattern where it is only stored; PUT_* keep the low bytes. The seconds and
-- microseconds of SecTime are unbounded integers. `strlen` searches as far as the array reaches
-- that holds the text, or BUFSIZE in a received message; the theorems on texts suppose a terminator
-- within it. The number of tasks of a Process Manager is an unbounded integer, and
-- the theorems on the scheduler suppose that the next pid is below 2^31. The loop that removes failed
-- Process Managers has fuel, and a theorem that one round more than there are slots is enough.
-- Everything else recurs on a list or on a limit of the source.
--
-- Not modelled: sockets, threads, printing, logging, null pointers that no caller passes, a failing
-- malloc, generated scanners and parsers, the copy of PCRE, and the applications. The network that
-- Publish sends over is a parameter: which send succeeds. Where Publish reads a node that it has deleted,
-- the outcome is `undefined`. What Publish copies past the payload array, and what SendTo changes in the
-- header of the message sent, are left out, as are numbers of eight bytes and floating-point numbers in
-- marshall.h, the assignment of merge_variables to its global result, and the header of an xTEDS before
-- it is set (new_xteds leaves it uninitialised). `AddNode` of the backup Data Managers has no return
-- statement; the model gives the state at its end, as `ran_off`.
pub mod Common
pub mod Wire
pub mod ComponentId
pub mod MessageId
pub mod Header
pub mod Message
pub mod SubscriptionManager
pub mod SecTime
pub mod TimerList
pub mod Dm
pub mod Xteds
pub mod MessageManipulator
pub mod Marshall
pub mod Tm
pub mod Pm
pub mod Tests
