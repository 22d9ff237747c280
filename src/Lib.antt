-- ===== src/Lib.antt =====
-- libbdvmi: introspection of the guests of a hypervisor. An application learns of events in a guest
-- (page faults, writes of control registers and MSRs, breakpoints) and answers them, reads and
-- writes the guest's memory and registers, and restricts the access to its pages.
--
-- The parts that are modelled, and how they work together. The driver maps guest pages by way of the
-- page cache. The base class of the drivers caches the page protections per view and writes them to
-- the hypervisor in a flush, which the event loop does after every event. The base class of the event
-- managers keeps what is switched on. The loop of the Xen event manager takes the requests off the
-- ring one after the other: it sets up the register cache of the driver and the view cache for the
-- VCPU, has the application's callback answer, joins a delayed write of registers to the response,
-- flushes the protections, and turns the caches off.
-- The domain watchers find the guests that come and go; a loop over either of them tells the
-- application, which starts a driver and an event manager for a guest.
--
-- Common           numbers, options, association lists (Common/Maps), sets of numbers
--                  (Common/IdSet), words and page addresses (Common/Word), and lemmas on Boolean
--                  tests (Common/Tests). A map of the source is a list of pairs in the order of the
--                  keys; a pointer is a number, 0 for nullptr.
-- PageCache        src/pagecache.cpp, include/bdvmi/pagecache.h. `update`, `release`, `cleanup` and
--                  `reset` are the functions of those names; the answer of the driver (the address
--                  of a mapped page) and that of mincore() are arguments. Coherence, Eviction, Oldest
--                  and Counts hold the proofs.
-- Driver           src/driver.cpp, include/bdvmi/driver.h. setPageProtection(), getPageProtection(),
--                  setEPTPageConvertible(), flushPageProtections() and maxGPFN(); what the virtual
--                  functions answer is an argument, and a flush returns the calls it makes.
--                  Proofs: Protection, WriteBack, SearchLoops and MaxGpfn.
-- EventManager     src/eventmanager.cpp, include/bdvmi/eventmanager.h, over a backend with a state of
--                  its own that grants or refuses. Proofs: Sync.
-- Altp2m           src/xenaltp2m.cpp, src/xenaltp2m.h: the alternative page tables of Xen.
--                  Proofs: Views.
-- Xen.Registers    src/xendriver.cpp: registers(), setRegisters() and the caches behind them.
--                  Proofs: Mode and Cached.
-- Xen.Mtrr         src/xendriver.cpp: mtrrType(). Proofs: Ranges.
-- Xen.Pages        src/xendriver.cpp: mapPhysMemToHost(), unmapPhysMem(), and the driver's calls for
--                  protections, convertible bits and views. Proofs: Mapping.
-- Xen.Monitor      src/xeneventmanager.cpp: the requests to switch events on and off as hypercalls, a
--                  backend of EventManager. Proofs: Requests.
-- Watcher          src/domainwatcher.cpp, include/bdvmi/domainwatcher.h, domainhandler.h: the loop that
--                  tells an application of guests, over a backend with a state of its own. Told says
--                  what a handler has been told of a guest. Proofs: Ends.
-- Xen.Watcher      src/xendomainwatcher.cpp, src/xendomainwatcher.h, a backend of Watcher. A `Store` is
--                  what XenStore has, a `Moment` what one wait meets. Wait has the wait. Proofs:
--                  News, Releases, Resumes and Twice.
-- Xen.Guest        src/xendriver.cpp: init(), getDomainId(), startTime(), injections and pauses.
--                  Proofs: Boot.
-- Xen.Saved        src/xendriver.cpp: getXSAVEInfo(), getXCR0(). Proofs: Scanned.
-- Xen.Control      src/xcwrapper.cpp, src/version.cpp: what the wrapper of libxenctrl adds to its
--                  functions. Proofs: Asked.
-- Xen.Events       src/xeneventmanager.cpp: Handlers has the handlers of the single events, Loop the
--                  round from a request to its response. A `World` is what comes from outside while
--                  one request is handled: the application's answer and what it does to the driver,
--                  and the hypercalls' answers. Proofs: Responses and Singlestep. Life has the
--                  constructor, cleanup() and the wait for an event, over what is on at the other
--                  side. Proofs: Life.Released.
-- Kvm.Kvmi         the calls of libkvmi that register what is monitored and show or switch views, over a
--                  state of the other side; `Honest` says what a call that succeeds does to it.
-- Kvm.Control      src/kvmdriver.cpp, src/kvmdriver.h: what is registered for a processor
--                  (flushEvents(), and what flushCREvents() and flushMSREvents() have in common).
-- Kvm.Views        the EPT views, and the first switch of each processor. Proofs: Handout, Setup.
-- Kvm.Vcpus        the processors, their entries, and flushCtrlEvents(). Proofs: Registering,
--                  Flush, Refused and InRange.
-- Kvm.Registers    the register cache, reads and writes of registers. Proofs: Read.
-- Kvm.Batch        the messages of an answer, queued and sent together. Proofs: Chunks and Reply.
-- Kvm.Pause        nested pauses by several threads, section by section, kicks and the pause events.
--                  Proofs: Owed.
-- Kvm.Events       src/kvmeventmanager.cpp: a round of waitForEvents() from a message to its reply.
--                  Proofs: Answers, Handled and Round.
-- Kvm.Requests     src/kvmeventmanager.cpp: the constructor and the requests to switch events on and
--                  off, a backend of EventManager. Proofs: Flushed.
-- Kvm.Loop         src/kvmeventmanager.cpp: waitForEvents() over the list of what arrives.
--                  Proofs: Rounds and Served.
-- Kvm.Drain        src/kvmeventmanager.cpp: flushEventQueue() and the destructor. Proofs: Answered.
-- Kvm.Memory       src/kvmdriver.cpp: the mapping of pages, their convertible bits, and the calls that
--                  are handed on to libkvmi. Proofs: Mapping.
-- Kvm.Watcher      src/kvmdomainwatcher.cpp, src/kvmdomainwatcher.h, a backend of Watcher. System has
--                  what can happen to it, one thing after the other, with what the application and the
--                  guests are taken to do. Proofs: Alternate, InStep, Reach, Heard,
--                  Again, Announce and Connect.
--
-- The tests and concrete runs of a part are in its module Checks.
--
-- Bounds. 64-bit addresses and instruction pointers wrap around at 2 ^ 64, the count of uses of a
-- cached page at 2 ^ 16, where the upper half is negative. The search of maxGPFN() is given
-- fuel: an upward search ends after 256 holes in a row, so that with no frame to map from `top` on,
-- 257 steps for each frame below it and 256 more are enough. The loop of the KVM driver over chunks of
-- pages is given one more step than there are pages, which is enough if a page fits into a message.
-- The scan of a guest's saved state is given one more step than there are bytes; every entry has eight
-- bytes or more.
-- KVMI_NUM_EVENTS and the number of pages in a message come from headers of libkvmi and are arguments.
--
-- Not modelled. What other threads do in the middle of an operation: each operation is one step,
-- but for pause() of the KVM driver, which gives up its mutex, and whose three sections are steps that
-- those of other threads may come between (Kvm.Pause). The ring's memory: the requests are a list. Libraries (libxenctrl, libxenstore, kvmi) are arguments; so is what
-- XenStore answers, which is taken not to change within one call. The lookup of library functions by
-- name, the logger, the statistics and the example are left out; of the Xen driver getXSAVESize(),
-- which shifts an int by more than its width, and getXSAVEArea(). An application's handler is taken
-- to be set throughout, except in Watcher.

pub mod Common
pub mod PageCache
pub mod Driver
pub mod EventManager
pub mod Altp2m
pub mod Xen
pub mod Watcher
pub mod Kvm
