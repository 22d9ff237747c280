-- ===== src/Xen/Events.antt =====
-- The data of src/xeneventmanager.cpp: a request that the hypervisor puts on the ring, the response
-- to it, the monitoring application's callbacks (include/bdvmi/eventhandler.h) and the state that
-- the event loop works on. Flags that the code names are fields, by name: their bit numbers are
-- Xen's. The reason of a request and its union `u` are one value.
pub mod Handlers
pub mod Loop
pub mod Responses
pub mod Singlestep
pub mod Life
mod Checks
use libbdvmi.Common.{ℕ, Bool, true, false, Option, List, Map}
use libbdvmi.Driver.{Driver}
use libbdvmi.EventManager.{EventManager}
use libbdvmi.Altp2m.{Altp2m}
use libbdvmi.Xen.Registers.{Registers, XenDriver, Answer}

pub record Flags : Type 0 where
  pub emulate : Bool
  pub emulate_nowrite : Bool
  pub set_registers : Bool
  pub deny : Bool
  pub alternate_p2m : Bool
  pub toggle_singlestep : Bool
  pub set_emul_read_data : Bool
  pub get_next_interrupt : Bool
  pub others : ℕ

pub data HvAction : Type 0 where
  no_action emulate_nowrite skip_instruction allow_virtual emulate_set_ctxt : HvAction

pub data GuestState : Type 0 where
  running post_shutdown shutdown_in_progress : GuestState

pub data ControlRegister : Type 0 where
  cr0 cr3 cr4 xcr0 : ControlRegister
  unknown_cr : ℕ → ControlRegister

pub data Descriptor : Type 0 where
  idtr gdtr ldtr tr : Descriptor
  unknown_descriptor : ℕ → Descriptor

pub record MemAccess : Type 0 where
  pub gfn : ℕ
  pub offset : ℕ
  pub gla : ℕ
  pub read : Bool
  pub write : Bool
  pub execute : Bool
  pub in_gpt : Bool
  pub gla_valid : Bool

pub data Reason : Type 0 where
  mem_access : MemAccess → Reason
  singlestep : Reason
  write_ctrlreg : ControlRegister → ℕ → ℕ → Reason
  mov_to_msr : ℕ → ℕ → ℕ → Reason
  guest_request : Reason
  software_breakpoint : ℕ → ℕ → ℕ → Reason
  interrupt : ℕ → ℕ → ℕ → Reason
  descriptor_access : Descriptor → Bool → Reason
  emul_unimplemented : Reason
  unknown_reason : ℕ → Reason

pub record Request : Type 0 where
  pub version : ℕ
  pub vcpu_id : ℕ
  pub flags : Flags
  pub altp2m_idx : ℕ
  pub regs : Registers
  pub reason : Reason

-- The union `data` of a response; `clobbered` is the emulator's data with registers written over.
pub data RspData : Type 0 where
  rsp_regs : Registers → RspData
  emul_read : ℕ → List ℕ → RspData
  clobbered : RspData

pub record Response : Type 0 where
  pub version : ℕ
  pub vcpu_id : ℕ
  pub flags : Flags
  pub altp2m_idx : ℕ
  pub contents : RspData
  pub reason : Reason

pub data Callback : Type 0 where
  run_pre_event run_post_event : Callback
  handle_page_fault : ℕ → Registers → ℕ → ℕ → MemAccess → Callback
  handle_cr : ℕ → ℕ → Registers → ℕ → ℕ → Callback
  handle_msr : ℕ → ℕ → ℕ → ℕ → Callback
  handle_vmcall : ℕ → Registers → Callback
  handle_xsetbv : ℕ → Callback
  handle_breakpoint : ℕ → Registers → ℕ → Callback
  handle_interrupt : ℕ → Registers → ℕ → ℕ → ℕ → Callback
  handle_descriptor_access : ℕ → Registers → ℕ → Callback
  handle_session_over : GuestState → Callback

-- What comes from outside while one request is handled: what the application's callback leaves in
-- its output parameters and returns, what it does in it to the driver's registers, protections and
-- injections by the driver's own operations, and the hypercalls' answers.
pub record World : Type 0 where
  pub action : HvAction
  pub instruction_size : ℕ
  pub emul_size : ℕ
  pub emul_data : List ℕ
  pub breakpoint_handled : Bool
  pub on_registers : XenDriver → XenDriver
  pub on_memory : Driver → Driver
  pub on_injections : Map Bool → Map Bool
  pub cpu : Answer Registers
  pub mtrr : Answer ℕ

pub record Session (S : Type 0) : Type 0 where
  pub driver : XenDriver
  pub memory : Driver
  pub altp2m : Altp2m
  pub manager : EventManager
  pub backend : S
  pub pending_injections : Map Bool
  pub has_handler : Bool
  pub stopped : Bool
  pub guest_state : GuestState
  pub handle_emul_unimplemented : Bool
  pub singlestep_p2m_idx : Map ℕ
  pub msr_old_value_cache : Map (Map ℕ)
  pub version_is_4_6 : Bool
  pub version_from_4_9 : Bool
  pub is_xen_server : Bool
  pub callbacks : List Callback  -- newest first
  pub reinjected : List (ℕ × ℕ × ℕ)  -- breakpoints given back: VCPU, type, length; newest first
