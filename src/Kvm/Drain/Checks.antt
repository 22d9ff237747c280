-- ===== src/Kvm/Drain/Checks.antt =====
-- An event that is still in the queue (src/kvmeventmanager.cpp), on a concrete state.
use libbdvmi.Common.{◌≡◌, refl, true, false, List, [], ◌∷◌, arith}
use libbdvmi.Kvm.Granting.{Machine, granting}
use libbdvmi.Kvm.Batch.{continue, pf_reply, Message}
use libbdvmi.Kvm.Batch.Chunks.{replies}
use libbdvmi.Kvm.Events.{KvmSession, answered}
use libbdvmi.Kvm.Events.Samples.{fault, session, session-Idle}
use libbdvmi.Kvm.Drain.{Pending, answer_pending}
use libbdvmi.Kvm.Drain.Answered.{answer_pending-passing}

abbrev pending : Pending
pending = record { msg = fault; queues = λ c. true; commits = true }

answer_pending-passing_example :
    (s' : KvmSession Machine) × (batch : List Message) × (answer_pending granting 16 2 pending
        session
      ≡ answered true s')
    × (replies batch
        ≡ record { vcpu = 0; seq = 9; action = continue; contents = pf_reply 0 0 [] false } ∷ [])
answer_pending-passing_example =
    let r =
      answer_pending-passing granting 16 2 pending session (omega arith) (λ c. refl) refl
        session-Idle in
    (r.0, r.1, r.2, r.4)
