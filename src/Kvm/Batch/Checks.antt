-- ===== src/Kvm/Batch/Checks.antt =====
-- The batch of an answer in src/kvmdriver.cpp on a concrete state.
use libbdvmi.Common.{ℕ, ◌≡◌, refl, true, some, List, [], ◌∷◌, ◌++◌, arith, Map}
use libbdvmi.Xen.Registers.{default_registers}
use libbdvmi.Kvm.Batch.{
  continue, no_contents, EventReply, Message, Outbox, set_page_protection_impl, reply_event,
}
use libbdvmi.Kvm.Batch.Chunks.{accesses, Fits, protections, set_page_protection_impl-accesses}
use libbdvmi.Kvm.Batch.Reply.{reply_event-sent}

abbrev three_pages : Map ℕ
three_pages = (1, 1) ∷ (2, 3) ∷ (5, 7) ∷ []

-- Two pages fit into a message.
set_page_protection_impl-accesses_example :
    (after : List Message) × (set_page_protection_impl (λ c. true) 2 three_pages 1 []
      ≡ some (true, after))
    × (accesses after ≡ accesses [] ++ protections 1 three_pages)
    × Fits 2 after
set_page_protection_impl-accesses_example =
    set_page_protection_impl-accesses (λ c. true) 2 three_pages 1 [] (omega arith) tt (λ c. refl)

-- The registers were changed and a protection waits.
abbrev answering : Outbox
answering = record {
  flags = 0;
  regs_cache = record {
    registers = default_registers;
    vcpu = some 1;
    valid = true;
    dirty = true;
    view = 0;
  };
  memory = record {
    mem_access_cache = [];
    delayed_mem_access_write = (0, three_pages) ∷ [];
    delayed_convertible_write = [];
    max_gpfn = 0;
  };
  batch = [];
  sent = [];
}

abbrev reply : EventReply
reply = record { vcpu = 1; seq = 7; action = continue; contents = no_contents }

reply_event-sent_example :
    (first : List Message) × (d' : Outbox) × (reply_event (λ c. true) 2 true reply answering
      ≡ some (true, d'))
    × (accesses first ≡ protections 0 three_pages ++ [])
reply_event-sent_example =
    let r = reply_event-sent (λ c. true) (λ c. refl) 2 reply answering (omega arith) tt in
    (r.0, r.1, r.2, r.4)
